-- ===== src/Smc/Value/Float/Laws.antt =====
-- A float is written as the bytes that are read as it.
use fand.Prelude.{
  ℕ, zero, suc, ◌+◌, ◌-◌, ◌*◌, ◌/◌, ◌%◌, ◌^◌, ◌<◌, ◌≤◌, ◌≡◌, refl, sym, ap, ◌∙◌, Bool, true, false,
  ◌==◌, ltb, List, ◌⊎◌, inl, inr, subst, length, arith, if◌then◌else◌, Bool-cases, lt→ltb,
}
use fand.Prelude.Int.{pos, neg_ℕ}
use fand.F32.{F32, nan, pos_inf, neg_inf, fin, is_finite, lt, of_ℕ, one}
use fand.F32.Sign.{of_ℕ-one}
use fand.Smc.Value.{magnitude, f32_from_bits, from_le_bytes, decode_flt}
use fand.Smc.Value.Laws.{decode_flt_iff}
use fand.Smc.Value.Float.{normalize, magnitude_bits, to_bits, to_le_bytes, to_be_bytes, encode_flt}

double : (m k : ℕ) → m * 2 ^ suc k ≡ 2 * (m * 2 ^ k)
double m k = grind arith

scaled_pos : (m k : ℕ) → m ≤ m * 2 ^ k
scaled_pos m zero = omega arith
scaled_pos m (suc k) = omega (arith, double m k, scaled_pos m k)

normalize_scaled :
    (k f e m : ℕ) → k ≤ f → 8388608 ≤ m → m < 16777216 → normalize f e (m * 2 ^ k) ≡ (e + k, m)
unfolding normalize
normalize_scaled (suc k) zero e m h low high = absurd (omega arith)
normalize_scaled zero zero e m h low high = ground arith
normalize_scaled zero (suc f) e m h low high = ground (arith)
normalize_scaled (suc k) (suc f) e m h low high =
    let half : m * 2 ^ suc k / 2 ≡ m * 2 ^ k = omega (arith, double m k) in
    let large : 16777216 ≤ m * 2 ^ suc k = omega (arith, double m k, scaled_pos m k) in
    let ih = normalize_scaled k f (e + 1) m (omega arith) low high in rw half (ground (arith, ih))

bits_small : (m : ℕ) → m < 8388608 → magnitude_bits m ≡ m
unfolding magnitude_bits
bits_small m h = rw (lt→ltb m 8388608 h) refl

bits_large :
    (m e digits : ℕ)
    → 8388608 ≤ m
    → normalize 254 1 m ≡ (e, digits)
    → magnitude_bits m ≡ e * 8388608 + (digits - 8388608)
unfolding magnitude_bits
bits_large m e digits h norm =
    let not_small : ltb m 8388608 ≡ false = ground arith in rw norm (rw not_small refl)

magnitude_zero : (mantissa : ℕ) → magnitude 0 mantissa ≡ mantissa
unfolding magnitude
magnitude_zero mantissa = refl

magnitude-suc : (e mantissa : ℕ) → magnitude (suc e) mantissa ≡ (8388608 + mantissa) * 2 ^ e
unfolding magnitude
magnitude-suc e mantissa = let s : suc e - 1 ≡ e = omega arith in rw s (ground arith)

-- The bits of a magnitude are its exponent and its mantissa.
magnitude_bits-magnitude :
    (exponent mantissa : ℕ)
    → exponent < 255
    → mantissa < 8388608
    → magnitude_bits (magnitude exponent mantissa) ≡ exponent * 8388608 + mantissa
magnitude_bits-magnitude zero mantissa h k =
    ap magnitude_bits (magnitude_zero mantissa) ∙ bits_small mantissa k ∙ omega arith
magnitude_bits-magnitude (suc e) mantissa h k =
    let m = 8388608 + mantissa in
    let norm = normalize_scaled e 254 1 m (omega arith) (omega arith) (omega arith) in
    ap magnitude_bits (magnitude-suc e mantissa)
    ∙ bits_large (m * 2 ^ e) (1 + e) m (omega (arith, scaled_pos m e)) norm
    ∙ omega arith

from_le_bytes-to_le_bytes : (n : ℕ) → from_le_bytes (to_le_bytes n) ≡ n % 4294967296
unfolding from_le_bytes to_le_bytes
from_le_bytes-to_le_bytes n = omega arith

low_bits : (n : ℕ) → f32_from_bits (n % 4294967296) ≡ f32_from_bits n
unfolding f32_from_bits
low_bits n =
    let e : ((n % 4294967296) / 8388608) % 256 ≡ (n / 8388608) % 256 = omega arith in
    let m : (n % 4294967296) % 8388608 ≡ n % 8388608 = omega arith in
    let s : ((n % 4294967296) / 2147483648) % 2 ≡ (n / 2147483648) % 2 = omega arith in
    rw (e, m, s) refl

-- Putting an exponent and a mantissa together, and taking them apart.
positive_bits :
    (exponent mantissa : ℕ)
    → exponent < 255
    → mantissa < 8388608
    → f32_from_bits (exponent * 8388608 + mantissa) ≡ fin (pos (magnitude exponent mantissa))
unfolding f32_from_bits
positive_bits exponent mantissa h k =
    let e : ((exponent * 8388608 + mantissa) / 8388608) % 256 ≡ exponent = omega arith in
    let m : (exponent * 8388608 + mantissa) % 8388608 ≡ mantissa = omega arith in
    let s : ((exponent * 8388608 + mantissa) / 2147483648) % 2 ≡ 0 = omega arith in
    let usual : (exponent == 255) ≡ false = ground arith in rw (e, m, s) (rw usual refl)

negative_bits :
    (exponent mantissa : ℕ)
    → exponent < 255
    → mantissa < 8388608
    → f32_from_bits (2147483648 + (exponent * 8388608 + mantissa))
      ≡ fin (neg_ℕ (magnitude exponent mantissa))
unfolding f32_from_bits
negative_bits exponent mantissa h k =
    let n = 2147483648 + (exponent * 8388608 + mantissa) in
    let e : (n / 8388608) % 256 ≡ exponent = omega arith in
    let m : n % 8388608 ≡ mantissa = omega arith in
    let s : (n / 2147483648) % 2 ≡ 1 = omega arith in
    let usual : (exponent == 255) ≡ false = ground arith in rw (e, m, s) (rw usual refl)

-- A finite float of an exponent and a mantissa has its own bits.
module _ (exponent mantissa : ℕ) (h : exponent < 255) (k : mantissa < 8388608) where
  reread_positive :
      f32_from_bits (to_bits (fin (pos (magnitude exponent mantissa))))
      ≡ fin (pos (magnitude exponent mantissa))
  unfolding to_bits
  reread_positive =
      ap f32_from_bits (magnitude_bits-magnitude exponent mantissa h k)
      ∙ positive_bits exponent mantissa h k

  reread_negative :
      (n : ℕ)
      → magnitude exponent mantissa ≡ n
      → f32_from_bits (to_bits (fin (neg_ℕ n))) ≡ fin (neg_ℕ n)
  unfolding to_bits magnitude_bits f32_from_bits
  reread_negative zero e = refl
  reread_negative (suc n) e =
      ap (λ b. f32_from_bits (2147483648 + b))
        (ap magnitude_bits (sym e) ∙ magnitude_bits-magnitude exponent mantissa h k)
      ∙ negative_bits exponent mantissa h k
      ∙ ap (λ m. fin (neg_ℕ m)) e

exponent_of : ℕ → ℕ
exponent_of bits = (bits / 8388608) % 256

-- What a finite float of some bits is made of.
finite_cases :
    (bits : ℕ)
    → is_finite (f32_from_bits bits) ≡ true
    → (exponent_of bits < 255)
      × ((f32_from_bits bits ≡ fin (pos (magnitude (exponent_of bits) (bits % 8388608))))
          ⊎ (f32_from_bits bits ≡ fin (neg_ℕ (magnitude (exponent_of bits) (bits % 8388608)))))
unfolding f32_from_bits exponent_of
finite_cases bits h = elim (Bool-cases ((bits / 8388608) % 256 == 255)) [
  | inl e ↦ absurd (infinite (bits % 8388608 == 0) ((bits / 2147483648) % 2 == 1) (rw e at h))
  | inr e ↦
      let e' : (bits / 8388608) % 256 < 255 = ground arith in
      rw e (elim (Bool-cases ((bits / 2147483648) % 2 == 1)) [
        | inl negative ↦ rw negative (e', inr refl)
        | inr positive ↦ rw positive (e', inl refl)
      ])
]
  where
    infinite :
        (a b : Bool) → ¬ (is_finite (if a then (if b then neg_inf else pos_inf) else nan) ≡ true)
    infinite true true h = cc
    infinite true false h = cc
    infinite false b h = cc

reread :
    (bits : ℕ) (v : F32)
    → f32_from_bits bits ≡ v
    → is_finite v ≡ true
    → f32_from_bits (to_bits v) ≡ v
reread bits v e h =
    let (low, shape) = finite_cases bits (ap is_finite e ∙ h) in
    subst (λ x. f32_from_bits (to_bits x) ≡ x) e
      (elim shape [
        | inl p ↦
            subst (λ x. f32_from_bits (to_bits x) ≡ x) (sym p)
              (reread_positive (exponent_of bits) (bits % 8388608) low (omega arith))
        | inr p ↦
            subst (λ x. f32_from_bits (to_bits x) ≡ x) (sym p)
              (reread_negative (exponent_of bits) (bits % 8388608) low (omega arith)
                (magnitude (exponent_of bits) (bits % 8388608)) refl)
      ])

pub finite-encode_flt :
    (v : F32) → is_finite v ≡ true → encode_flt v ≡ inr (to_le_bytes (to_bits v))
unfolding encode_flt
finite-encode_flt nan h = cc
finite-encode_flt pos_inf h = cc
finite-encode_flt neg_inf h = cc
finite-encode_flt (fin z) h = refl

-- A float that was decoded from bytes is encoded as four bytes that decode to it.
pub decode_flt-encode_flt :
    (bytes : List ℕ) (v : F32)
    → decode_flt bytes 4 ≡ inr v
    → (encoded : List ℕ) × (encode_flt v ≡ inr encoded)
      × (length encoded ≡ 4)
      × (decode_flt encoded 4 ≡ inr v)
unfolding to_le_bytes
decode_flt-encode_flt bytes v h =
    let (size, e, f) = (decode_flt_iff bytes 4 v).0 h in
    let encoded = to_le_bytes (to_bits v) in
    let back =
      ap f32_from_bits (from_le_bytes-to_le_bytes (to_bits v))
      ∙ low_bits (to_bits v)
      ∙ reread (from_le_bytes bytes) v e f in
    (encoded, finite-encode_flt v f, refl, (decode_flt_iff encoded 4 v).1 (refl, back, f))

multiple : (n j : ℕ) → (n * 256 * 2 ^ j) % 256 ≡ 0
multiple n j = omega (arith, regrouped)
  where
    regrouped : n * 256 * 2 ^ j ≡ 256 * (n * 2 ^ j)
    regrouped = grind arith

-- Of a whole number below 2 ^ 16, the last byte of the float's bits is 0.
normalize_whole : (j f e n : ℕ) → n < 65536 → (normalize f e (n * 256 * 2 ^ j)).1 % 256 ≡ 0
unfolding normalize
normalize_whole zero zero e n h = omega arith
normalize_whole (suc j) zero e n h = multiple n (suc j)
normalize_whole zero (suc f) e n h =
    let small : ltb (n * 256 * 1) 16777216 ≡ true = ground arith in rw small (omega arith)
normalize_whole (suc j) (suc f) e n h =
    let half : n * 256 * 2 ^ suc j / 2 ≡ n * 256 * 2 ^ j = omega (arith, double (n * 256) j) in
    let whole = multiple n (suc j) in
    let ih = normalize_whole j f (e + 1) n h in rw half (ground (arith, ih, whole))

magnitude_bits_whole : (n : ℕ) → n < 65536 → magnitude_bits (n * one) % 256 ≡ 0
unfolding magnitude_bits
magnitude_bits_whole n h =
    let scaled : n * one ≡ n * 256 * 2 ^ 141 = omega arith in
    let digits = normalize_whole 141 254 1 n h in rw scaled (ground (arith, digits))

-- The bytes of such a number in the other order are read as less than 1.
small_bits : (b : ℕ) → b < 16777216 → (m : ℕ) × (f32_from_bits b ≡ fin (pos m)) × (m < 16777216)
small_bits b h =
    let split : (b / 8388608) * 8388608 + b % 8388608 ≡ b = omega arith in
    let bits = positive_bits (b / 8388608) (b % 8388608) (omega arith) (omega arith) in
    (
      magnitude (b / 8388608) (b % 8388608),
      ap f32_from_bits (sym split) ∙ bits,
      small (b / 8388608) (b % 8388608) (omega arith) (omega arith),
    )
  where
    small : (e m : ℕ) → e ≤ 1 → m < 8388608 → magnitude e m < 16777216
    small zero m h k = omega (arith, magnitude_zero m)
    small (suc zero) m h k = omega (arith, magnitude-suc 0 m)
    small (suc (suc e)) m h k = absurd (omega arith)

swapped : (b : ℕ) → b % 256 ≡ 0 → from_le_bytes (to_be_bytes b) < 16777216
unfolding from_le_bytes to_be_bytes
swapped b h = omega arith

-- A whole number below 2 ^ 16 that is written with its highest byte first is decoded as a number
-- below 1.
pub decode_flt-to_be_bytes :
    (n : ℕ)
    → n < 65536
    → (w : F32) × (decode_flt (to_be_bytes (to_bits (fin (pos (n * one))))) 4 ≡ inr w)
      × (lt w (of_ℕ 1) ≡ true)
unfolding to_bits
decode_flt-to_be_bytes n h =
    let bytes = to_be_bytes (magnitude_bits (n * one)) in
    let (m, e, low) =
      small_bits (from_le_bytes bytes)
        (swapped (magnitude_bits (n * one)) (magnitude_bits_whole n h)) in
    (
      fin (pos m),
      (decode_flt_iff bytes 4 (fin (pos m))).1 (refl, e, refl),
      rw of_ℕ-one (ground arith),
    )
