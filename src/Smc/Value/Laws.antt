-- ===== src/Smc/Value/Laws.antt =====
-- The codecs: round trips, and what a decoder accepts.
use fand.Prelude.{
  ℕ, ◌<◌, ◌≡◌, ◌↔◌, ◌⊎◌, inl, inr, refl, ap, true, false, ◌==◌, ==_iff, Bool-cases, ◌||◌, List,
  length, arith, if◌then◌else◌,
}
use fand.F32.{F32, is_finite, is_nan, is_infinite, nan, pos_inf, neg_inf, fin}
use fand.Smc.Value.{
  SmcValueError, from_le_bytes, f32_from_bits, decode_flt, decode_ui8, encode_ui8, decode_ui32,
  encode_ui32,
}

-- A number of 32 bits is encoded as four bytes, and decoding them gives it back.
pub decode_ui32-encode_ui32 :
    (n : ℕ)
    → n < 4294967296
    → (decode_ui32 (encode_ui32 n) 4 ≡ inr n) × (length (encode_ui32 n) ≡ 4)
unfolding decode_ui32 encode_ui32
decode_ui32-encode_ui32 n h = (ap inr (omega arith), refl)

-- One byte, likewise.
pub decode_ui8-encode_ui8 :
    (n : ℕ) → (decode_ui8 (encode_ui8 n) 1 ≡ inr n) × (length (encode_ui8 n) ≡ 1)
unfolding decode_ui8 encode_ui8
decode_ui8-encode_ui8 n = (refl, refl)

unusable : (x v : F32) → is_finite x ≡ false → ¬ ((x ≡ v) × (is_finite v ≡ true))
unusable x v f h = cc

usable :
    (x v : F32)
    → (◌≡◌ {A = SmcValueError ⊎ F32}
        (if is_nan x || is_infinite x then inl SmcValueError.invalid_float else inr x)
        (inr v))
      ↔ ((x ≡ v) × (is_finite v ≡ true))
usable nan v = (λ h. cc, λ h. absurd (unusable nan v refl h))
usable pos_inf v = (λ h. cc, λ h. absurd (unusable pos_inf v refl h))
usable neg_inf v = (λ h. cc, λ h. absurd (unusable neg_inf v refl h))
usable (fin z) v = (λ h. (cc, cc), λ h. ap inr h.0)

-- A float is decoded exactly if the size is given as 4 and the 32 bits, lowest byte first and 0
-- for a missing byte, are those of a finite float, and it is that float.
pub decode_flt_iff :
    (bytes : List ℕ) (size : ℕ) (v : F32)
    → (decode_flt bytes size ≡ inr v)
      ↔ ((size ≡ 4) × (f32_from_bits (from_le_bytes bytes) ≡ v) × (is_finite v ≡ true))
unfolding decode_flt
decode_flt_iff bytes size v = elim (Bool-cases (size == 4)) [
  | inl e ↦
      let (there, back) = usable (f32_from_bits (from_le_bytes bytes)) v in
      rw e (λ h. ((==_iff size 4).0 e, (there h).0, (there h).1), λ h. back (h.1, h.2))
  | inr e ↦ rw e (λ h. cc, λ h. absurd (ne e h.0))
]
  where
    ne : (size == 4) ≡ false → ¬ (size ≡ 4)
    ne e h = ground arith
