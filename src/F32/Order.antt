-- ===== src/F32/Order.antt =====
-- The order of floats, and its laws for rounded results.
use fand.Prelude.{ℕ, suc, ◌≤◌, ◌<◌, ◌≡◌, refl, true, false, arith}
use fand.Prelude.Int.{ℤ, pos, negsuc, ◌≤ℤ◌}
use fand.F32.Rounding.{round_mag}
use fand.F32.Monotone.{round_mag_mono}
use fand.F32.{F32, positive, negative, quot, le, lt, is_nan}

-- `a <= b` holds; so neither is NaN.
abbrev pub Le : F32 → F32 → Type 0
Le a b = le a b ≡ true

pub quot_pos : (n d : ℕ) → quot (pos n) d ≡ positive (round_mag n d)
unfolding quot
quot_pos n d = refl

pub quot_neg : (n d : ℕ) → quot (negsuc n) d ≡ negative (round_mag (suc n) d)
unfolding quot
quot_neg n d = refl

positive_mono : (m k : ℕ) → m ≤ k → Le (positive m) (positive k)
positive_mono m k h = ground arith

negative_mono : (m k : ℕ) → m ≤ k → Le (negative k) (negative m)
negative_mono m k h = ground arith

negative-le-positive : (m k : ℕ) → Le (negative m) (positive k)
negative-le-positive m k = ground arith

-- A greater quotient rounds to no less.
pub quot_mono : (a b : ℤ) (d : ℕ) → 0 < d → a ≤ℤ b → Le (quot a d) (quot b d)
quot_mono (pos n) (pos k) d p h =
    rw (quot_pos n d, quot_pos k d) (positive_mono _ _ (round_mag_mono n k d p (omega arith)))
quot_mono (negsuc n) (negsuc k) d p h =
    rw (quot_neg n d, quot_neg k d)
      (negative_mono _ _ (round_mag_mono (suc k) (suc n) d p (omega arith)))
quot_mono (negsuc n) (pos k) d p h =
    rw (quot_neg n d, quot_pos k d) (negative-le-positive (round_mag (suc n) d) (round_mag k d))
quot_mono (pos n) (negsuc k) d p h = absurd (omega arith)

pub le_trans : (a b c : F32) → Le a b → Le b c → Le a c
le_trans a b c p q = ground arith

pub lt→le : (a b : F32) → lt a b ≡ true → Le a b
lt→le a b p = ground arith

pub not-lt→le : (a b : F32) → is_nan a ≡ false → is_nan b ≡ false → lt a b ≡ false → Le b a
not-lt→le a b p q h = ground arith

pub not-le→lt : (a b : F32) → is_nan a ≡ false → is_nan b ≡ false → le a b ≡ false → lt b a ≡ true
not-le→lt a b p q h = ground arith

pub le→not-lt : (a b : F32) → Le a b → lt b a ≡ false
le→not-lt a b p = ground arith

pub le→not_nan : (a b : F32) → Le a b → (is_nan a ≡ false) × (is_nan b ≡ false)
le→not_nan a b p = ground arith

pub le_refl : (a : F32) → is_nan a ≡ false → Le a a
le_refl a p = ground arith

pub quot-not_nan : (a : ℤ) (d : ℕ) → is_nan (quot a d) ≡ false
quot-not_nan (pos n) d = rw (quot_pos n d) (ground arith)
quot-not_nan (negsuc n) d = rw (quot_neg n d) (ground arith)

pub lt→not-le : (a b : F32) → lt a b ≡ true → le b a ≡ false
lt→not-le a b h = ground arith
