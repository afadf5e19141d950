-- ===== src/F32/Sign.antt =====
-- Maxima, minima and products of floats that are not negative.
use fand.Prelude.{ℕ, ◌*◌, ◌≡◌, ◌⊎◌, refl, ap, true, false, arith}
use fand.Prelude.Int.{ℤ, pos, negsuc, ◌*ℤ◌}
use mathlib.Core.Bool.{false≢true}
use fand.F32
use fand.F32.{F32, nan, pos_inf, neg_inf, fin, one, quot, mul, of_ℕ, le, lt, is_nan, is_finite}
use fand.F32.Order.{Le, quot_pos}
use fand.F32.Arith.{zero_f32, zero-le-negsuc}

pub of_ℕ-one : of_ℕ 1 ≡ fin (pos one)
unfolding of_ℕ
of_ℕ-one = refl

pub of_ℕ-zero : of_ℕ 0 ≡ zero_f32
unfolding of_ℕ
of_ℕ-zero = refl

pub le-max_left : (a b : F32) → is_nan a ≡ false → Le a (F32.max a b)
unfolding F32.max
le-max_left a b h = ground arith

pub le-max_right : (a b : F32) → is_nan b ≡ false → Le b (F32.max a b)
unfolding F32.max
le-max_right a b h = ground arith

pub max-le : (a b c : F32) → Le a c → Le b c → Le (F32.max a b) c
unfolding F32.max
max-le a b c h k = ground arith

-- The maximum is one of the two.
pub max-cases : (a b : F32) → (F32.max a b ≡ a) ⊎ (F32.max a b ≡ b)
unfolding F32.max
max-cases a b = ground arith

pub le_antisymm : (a b : F32) → Le a b → Le b a → a ≡ b
le_antisymm a b h k = ground arith

-- The lesser of a length of time and one second.
pub min-one_bounds :
    (dt : F32)
    → Le zero_f32 dt
    → Le zero_f32 (F32.min dt (fin (pos one))) × (is_finite (F32.min dt (fin (pos one))) ≡ true)
unfolding F32.min
min-one_bounds dt h = ground arith

pub min-eq_right : (a b : F32) → Le b a → F32.min a b ≡ b
unfolding F32.min
min-eq_right a b h = ground (arith, le_antisymm a b)

pub quot_nonneg : (n d : ℕ) → Le zero_f32 (quot (pos n) d)
quot_nonneg n d = rw (quot_pos n d) (ground arith)

-- A finite float that is not negative, as its magnitude.
pub nonneg-view : (a : F32) → is_finite a ≡ true → Le zero_f32 a → (n : ℕ) × (a ≡ fin (pos n))
nonneg-view (fin (pos n)) f h = (n, refl)
nonneg-view (fin (negsuc n)) f h = absurd (zero-le-negsuc n h)
nonneg-view nan f h = absurd (false≢true f)
nonneg-view pos_inf f h = absurd (false≢true f)
nonneg-view neg_inf f h = absurd (false≢true f)

mul_pos : (n k : ℕ) → mul (fin (pos n)) (fin (pos k)) ≡ quot (pos (n * k)) one
unfolding mul ◌*ℤ◌
mul_pos n k = let e : pos n *ℤ pos k ≡ pos (n * k) = ground arith in ap (λ (z : ℤ). quot z one) e

pub mul_nonneg :
    (a b : F32)
    → is_finite a ≡ true
    → is_finite b ≡ true
    → Le zero_f32 a
    → Le zero_f32 b
    → Le zero_f32 (mul a b)
mul_nonneg a b f g h l =
    let (n, e) = nonneg-view a f h in
    let (k, d) = nonneg-view b g l in rw (e, d, mul_pos n k) (quot_nonneg (n * k) one)
