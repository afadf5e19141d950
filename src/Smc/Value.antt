-- ===== src/Smc/Value.antt =====
-- src/smc/types.rs: SMC values and their bytes. A `Result` is a sum, with the error on the left.
-- `encode_flt` is in Smc/Value/Float.
pub mod Laws
pub mod Float
use fand.Prelude.{
  ℕ, ◌+◌, ◌-◌, ◌*◌, ◌/◌, ◌%◌, ◌^◌, Bool, ◌||◌, ◌==◌, List, [], ◌∷◌, ◌⊎◌, inl, inr, get_or,
  if◌then◌else◌,
}
use fand.Prelude.Int.{pos, neg_ℕ}
use fand.F32.{F32, nan, pos_inf, neg_inf, fin, is_nan, is_infinite}

pub data SmcValueError : Type 0 where
  invalid_float : SmcValueError
  size_mismatch : (expected got : ℕ) → SmcValueError

-- `u32::from_be_bytes` and `u32::from_le_bytes` of the first four bytes, 0 for one that is missing.
unfoldable pub from_be_bytes : List ℕ → ℕ
from_be_bytes bytes =
    ((get_or bytes 0 0 * 256 + get_or bytes 1 0) * 256 + get_or bytes 2 0) * 256 + get_or bytes 3 0

unfoldable pub from_le_bytes : List ℕ → ℕ
from_le_bytes bytes =
    ((get_or bytes 3 0 * 256 + get_or bytes 2 0) * 256 + get_or bytes 1 0) * 256 + get_or bytes 0 0

-- The magnitude of an exponent and a mantissa, in multiples of 2 ^ -149.
unfoldable pub magnitude : ℕ → ℕ → ℕ
magnitude exponent mantissa =
    if exponent == 0 then mantissa else (2 ^ 23 + mantissa) * 2 ^ (exponent - 1)

-- The float of 32 bits: a sign, 8 bits of exponent and 23 of mantissa.
unfoldable pub f32_from_bits : ℕ → F32
unfolding magnitude
f32_from_bits bits =
    let exponent = (bits / 2 ^ 23) % 256 in
    let mantissa = bits % 2 ^ 23 in
    let negative = (bits / 2 ^ 31) % 2 == 1 in
    if exponent == 255
    then (if mantissa == 0 then (if negative then neg_inf else pos_inf) else nan)
    else fin (
        if negative then neg_ℕ (magnitude exponent mantissa) else pos (magnitude exponent mantissa))

unfoldable pub decode_flt : List ℕ → ℕ → SmcValueError ⊎ F32
unfolding f32_from_bits from_le_bytes
decode_flt bytes data_size =
    let val = f32_from_bits (from_le_bytes bytes) in
    if data_size == 4
    then (if is_nan val || is_infinite val then inl invalid_float else inr val)
    else inl (size_mismatch 4 data_size)

unfoldable pub decode_ui8 : List ℕ → ℕ → SmcValueError ⊎ ℕ
decode_ui8 bytes data_size =
    if data_size == 1 then inr (get_or bytes 0 0) else inl (size_mismatch 1 data_size)

unfoldable pub encode_ui8 : ℕ → List ℕ
encode_ui8 val = val ∷ []

unfoldable pub decode_ui32 : List ℕ → ℕ → SmcValueError ⊎ ℕ
unfolding from_be_bytes
decode_ui32 bytes data_size =
    if data_size == 4 then inr (from_be_bytes bytes) else inl (size_mismatch 4 data_size)

-- `to_be_bytes`.
unfoldable pub encode_ui32 : ℕ → List ℕ
encode_ui32 val = (val / 16777216) % 256 ∷ (val / 65536) % 256 ∷ (val / 256) % 256 ∷ val % 256 ∷ []
