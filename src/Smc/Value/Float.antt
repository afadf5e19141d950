-- ===== src/Smc/Value/Float.antt =====
-- The bits of a float, `f32::to_bits`, and its bytes in the two orders; `encode_flt` of
-- src/smc/types.rs. A zero of F32 has the bits of the positive zero, since F32 has one zero; where
-- the bytes of the two are told apart, a float is its bits, as in `encode_bits`.
pub mod Laws
use fand.Prelude.{
  ℕ, zero, suc, ◌+◌, ◌-◌, ◌*◌, ◌/◌, ◌%◌, ◌||◌, ltb, List, [], ◌∷◌, ◌⊎◌, inl, inr, if◌then◌else◌,
}
use fand.Prelude.Int.{pos, negsuc}
use fand.F32.{F32, nan, pos_inf, neg_inf, fin, is_nan, is_infinite}
use fand.Smc.Value.{SmcValueError, invalid_float, f32_from_bits}

-- The exponent, from `e` on, and the 24 bits of a magnitude. 254 halvings pass the largest float.
unfoldable pub normalize : ℕ → ℕ → ℕ → ℕ × ℕ
normalize zero e m = (e, m)
normalize (suc f) e m =
    let rest = normalize f (e + 1) (m / 2) in if ltb m 16777216 then (e, m) else rest

unfoldable pub magnitude_bits : ℕ → ℕ
magnitude_bits m =
    let (e, digits) = normalize 254 1 m in
    if ltb m 8388608 then m else e * 8388608 + (digits - 8388608)

unfoldable pub to_bits : F32 → ℕ
to_bits nan = 2143289344
to_bits pos_inf = 2139095040
to_bits neg_inf = 4286578688
to_bits (fin (pos n)) = magnitude_bits n
to_bits (fin (negsuc n)) = 2147483648 + magnitude_bits (suc n)

unfoldable pub to_le_bytes : ℕ → List ℕ
to_le_bytes n = n % 256 ∷ (n / 256) % 256 ∷ (n / 65536) % 256 ∷ (n / 16777216) % 256 ∷ []

unfoldable pub to_be_bytes : ℕ → List ℕ
to_be_bytes n = (n / 16777216) % 256 ∷ (n / 65536) % 256 ∷ (n / 256) % 256 ∷ n % 256 ∷ []

unfoldable pub encode_flt : F32 → SmcValueError ⊎ List ℕ
unfolding to_le_bytes
encode_flt val =
    if is_nan val || is_infinite val then inl invalid_float else inr (to_le_bytes (to_bits val))

-- `encode_flt` on the 32 bits of a float, by which the two zeros differ.
unfoldable pub encode_bits : ℕ → SmcValueError ⊎ List ℕ
unfolding to_le_bytes f32_from_bits
encode_bits bits =
    let val = f32_from_bits bits in
    if is_nan val || is_infinite val then inl invalid_float else inr (to_le_bytes bits)
