-- ===== src/F32/Arith.antt =====
-- Sums, differences, products and the cast to `u32` keep the order of floats.
use fand.Prelude.{ℕ, ◌≤◌, ◌≡◌, refl, true, false, arith, leb→le}
use mathlib.Core.Bool.{false≢true}
use fand.Prelude.Int.{ℤ, pos, negsuc, ◌+ℤ◌, ◌*ℤ◌, +ℤ_parts, *ℤ_parts, neg_ℤ, neg_ℤ_parts}
use mathlib.Core.Path.{subst}
use native.Mathlib.Nat.{mul-le-mul_left}
use fand.F32.{
  F32, nan, pos_inf, neg_inf, fin, one, quot, add, sub, mul, round, as_u32, is_nan, is_finite,
}
use fand.F32.Order.{Le, quot_mono, quot-not_nan}

-- The value is one that the format holds: rounding leaves it alone.
abbrev pub IsRounded : F32 → Type 0
IsRounded (fin a) = quot a 1 ≡ fin a
IsRounded _ = Unit {0}

abbrev pub zero_f32 : F32
zero_f32 = fin (pos 0)

pub add_fin : (a b : ℤ) → add (fin a) (fin b) ≡ quot (a +ℤ b) 1
unfolding add
add_fin a b = refl

pub mul_fin : (a b : ℤ) → mul (fin a) (fin b) ≡ quot (a *ℤ b) one
unfolding mul
mul_fin a b = refl

pub sub_fin : (a b : ℤ) → sub (fin a) (fin b) ≡ quot (a +ℤ neg_ℤ b) 1
unfolding sub
sub_fin a b = refl

pub neg_inf-le : (x : F32) → is_nan x ≡ false → Le neg_inf x
neg_inf-le x h = ground arith

le-pos_inf : (x : F32) → is_nan x ≡ false → Le x pos_inf
le-pos_inf x h = ground arith

-- Adding to both sides keeps the order.
pub add_mono : (a b c : F32) → is_finite a ≡ true → Le b c → Le (add a b) (add a c)
unfolding add
add_mono (fin a) (fin b) (fin c) f h =
    quot_mono (a +ℤ b) (a +ℤ c) 1 (omega arith)
      (omega (arith, +ℤ_parts a b, +ℤ_parts a c, leb→le _ _ h))
add_mono (fin a) neg_inf (fin c) f h = neg_inf-le (add (fin a) (fin c)) (quot-not_nan (a +ℤ c) 1)
add_mono (fin a) (fin b) pos_inf f h = le-pos_inf (add (fin a) (fin b)) (quot-not_nan (a +ℤ b) 1)
add_mono (fin a) neg_inf neg_inf f h = refl
add_mono (fin a) neg_inf pos_inf f h = refl
add_mono (fin a) pos_inf pos_inf f h = refl
add_mono a b c f h = cc

pub zero-le-negsuc : (n : ℕ) → ¬ Le zero_f32 (fin (negsuc n))
zero-le-negsuc n h = ground arith

-- Taking away what is not negative does not go up.
pub sub-le_self : (a d : F32) → is_finite a ≡ true → IsRounded a → Le zero_f32 d → Le (sub a d) a
unfolding sub
sub-le_self (fin a) (fin (pos n)) f r h =
    subst (λ (x : F32). Le (sub (fin a) (fin (pos n))) x) r
      (quot_mono (a +ℤ neg_ℤ (pos n)) a 1 (omega arith)
        (omega (arith, +ℤ_parts a (neg_ℤ (pos n)), neg_ℤ_parts (pos n))))
sub-le_self (fin a) pos_inf f r h = refl
sub-le_self (fin a) (fin (negsuc n)) f r h = absurd (zero-le-negsuc n h)
sub-le_self (fin a) nan f r h = absurd (false≢true h)
sub-le_self (fin a) neg_inf f r h = absurd (false≢true h)
sub-le_self nan d f r h = absurd (false≢true f)
sub-le_self pos_inf d f r h = absurd (false≢true f)
sub-le_self neg_inf d f r h = absurd (false≢true f)

pub mul_mono :
    (r x y : F32)
    → is_finite r ≡ true
    → Le zero_f32 r
    → is_finite x ≡ true
    → is_finite y ≡ true
    → Le x y
    → Le (mul r x) (mul r y)
unfolding mul
mul_mono (fin (pos r)) (fin x) (fin y) f p g h l =
    quot_mono (pos r *ℤ x) (pos r *ℤ y) one (omega arith)
      (omega (arith, *ℤ_parts r x, *ℤ_parts r y, mul-le-mul_left r (leb→le _ _ l)))
mul_mono (fin (negsuc r)) x y f p g h l = absurd (zero-le-negsuc r p)
mul_mono nan x y f p g h l = absurd (false≢true f)
mul_mono pos_inf x y f p g h l = absurd (false≢true f)
mul_mono neg_inf x y f p g h l = absurd (false≢true f)
mul_mono (fin (pos r)) nan y f p g h l = absurd (false≢true g)
mul_mono (fin (pos r)) pos_inf y f p g h l = absurd (false≢true g)
mul_mono (fin (pos r)) neg_inf y f p g h l = absurd (false≢true g)
mul_mono (fin (pos r)) (fin x) nan f p g h l = absurd (false≢true h)
mul_mono (fin (pos r)) (fin x) pos_inf f p g h l = absurd (false≢true h)
mul_mono (fin (pos r)) (fin x) neg_inf f p g h l = absurd (false≢true h)

pub round_mono : (a b : F32) → Le a b → Le (round a) (round b)
unfolding round
round_mono a b h = ground arith

pub as_u32_mono : (a b : F32) → Le a b → as_u32 a ≤ as_u32 b
unfolding as_u32
as_u32_mono a b h = ground arith
