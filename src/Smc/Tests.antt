-- ===== src/Smc/Tests.antt =====
-- The codecs and the keys at concrete values.
use fand.Prelude.{ℕ, ◌*◌, ◌^◌, ◌≡◌, ◌↔◌, refl, true, inr, [], ◌∷◌, List, length}
use fand.F32.{F32, fin, is_finite}
use fand.Prelude.Int.{pos}
use fand.Smc.Value.{from_be_bytes, from_le_bytes, f32_from_bits, decode_flt}
use fand.Smc.Value.Laws.{decode_flt_iff}
use fand.Smc.Value.Float.{encode_flt}
use fand.Smc.Value.Float.Laws.{decode_flt-encode_flt}
use fand.Smc.Keys.{fan_mode, fourcc}

-- 72.5 is 0x42910000.
abbrev warm : List ℕ
warm = 0 ∷ 0 ∷ 145 ∷ 66 ∷ []

abbrev degrees : F32
degrees = fin (pos (145 * 2 ^ 148))

warm_lem : decode_flt warm 4 ≡ inr degrees
unfolding decode_flt
warm_lem = refl

decode_flt-encode_flt_example :
    (encoded : List ℕ) × (encode_flt degrees ≡ inr encoded)
    × (length encoded ≡ 4)
    × (decode_flt encoded 4 ≡ inr degrees)
decode_flt-encode_flt_example = decode_flt-encode_flt warm degrees warm_lem

decode_flt_iff_example : (decode_flt warm 4 ≡ inr degrees) ↔ (
    ◌≡◌ {A = ℕ} 4 4 × (f32_from_bits (from_le_bytes warm) ≡ degrees) × (is_finite degrees ≡ true))
decode_flt_iff_example = decode_flt_iff warm 4 degrees

-- The mode key of fan 0 is "F0md".
fourcc_mode : fourcc (fan_mode 0) ≡ 1177578852
unfolding fourcc from_be_bytes
fourcc_mode = refl
