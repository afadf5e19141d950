-- ===== src/F32/Unit.antt =====
-- 0 and 1 in products, sums and quotients of floats.
use fand.Prelude.{ℕ, suc, ◌-◌, ◌*◌, ◌<◌, ◌≡◌, refl, sym, ap, ◌∙◌, true, arith}
use fand.Prelude.Int.{ℤ, pos, negsuc, ◌+ℤ◌, ◌*ℤ◌, +ℤ_parts, *ℤ_parts, eq_of_parts}
use native.Mathlib.Nat.{mul-one, mul-pos}
use mathlib.Core.Bool.{false≢true}
use fand.F32.Rounding.{round_mag}
use fand.F32.Exact.{round_mag_scale}
use fand.F32.{F32, fin, nan, pos_inf, neg_inf, one, quot, add, sub, mul, div, of_ℕ, is_finite}
use fand.F32.Order.{quot_pos, quot_neg}
use fand.F32.Arith.{IsRounded, zero_f32, add_fin, mul_fin}
use fand.F32.Sign.{of_ℕ-one}

one_pos : 0 < one
one_pos = omega arith

pos-*ℤ_pos : (n k : ℕ) → pos n *ℤ pos k ≡ pos (n * k)
unfolding ◌*ℤ◌
pos-*ℤ_pos n k = ground arith

pos-*ℤ_negsuc : (n k : ℕ) → 0 < n → pos n *ℤ negsuc k ≡ negsuc (n * suc k - 1)
unfolding ◌*ℤ◌
pos-*ℤ_negsuc n k p = ground (arith, mul-pos {n = suc k} p (omega arith))

whole : (n : ℕ) → round_mag (one * n) one ≡ round_mag n 1
whole n = round_mag_scale n 1 one one_pos

-- `one * k` over `one` rounds as `k`.
quot-one : (a : ℤ) → quot (pos one *ℤ a) one ≡ quot a 1
quot-one (pos n) = rw (pos-*ℤ_pos one n, quot_pos (one * n) one, quot_pos n 1, whole n)
quot-one (negsuc n) =
    let e : suc (one * suc n - 1) ≡ one * suc n = omega arith in
    rw (pos-*ℤ_negsuc one n one_pos, quot_neg (one * suc n - 1) one, quot_neg n 1, e, whole (suc n))

pub one-mul : (x : F32) → is_finite x ≡ true → IsRounded x → mul (of_ℕ 1) x ≡ x
one-mul (fin a) f r = rw (of_ℕ-one, mul_fin (pos one) a, quot-one a) r
one-mul nan f r = absurd (false≢true f)
one-mul pos_inf f r = absurd (false≢true f)
one-mul neg_inf f r = absurd (false≢true f)

quot_zero : quot (pos 0) one ≡ zero_f32
unfolding quot
quot_zero = refl

pub zero-mul : (x : F32) → is_finite x ≡ true → mul zero_f32 x ≡ zero_f32
zero-mul (fin a) f =
    let e : pos 0 *ℤ a ≡ pos 0 = eq_of_parts _ _ (omega (arith, *ℤ_parts 0 a)) in
    rw (mul_fin (pos 0) a, e) quot_zero
zero-mul nan f = absurd (false≢true f)
zero-mul pos_inf f = absurd (false≢true f)
zero-mul neg_inf f = absurd (false≢true f)

pub zero-add : (x : F32) → is_finite x ≡ true → IsRounded x → add zero_f32 x ≡ x
zero-add (fin a) f r =
    let e : pos 0 +ℤ a ≡ a = eq_of_parts _ _ (omega (arith, +ℤ_parts (pos 0) a)) in
    rw (add_fin (pos 0) a, e) r
zero-add nan f r = absurd (false≢true f)
zero-add pos_inf f r = absurd (false≢true f)
zero-add neg_inf f r = absurd (false≢true f)

pub one-sub-one : sub (of_ℕ 1) (of_ℕ 1) ≡ zero_f32
unfolding sub of_ℕ
one-sub-one = refl

div_pos : (a : ℤ) (n : ℕ) → div (fin a) (fin (pos (suc n))) ≡ quot (a *ℤ pos one) (suc n)
unfolding div
div_pos a n = refl

of_ℕ-quot : of_ℕ 1 ≡ quot (pos one) 1
unfolding of_ℕ
of_ℕ-quot = refl

-- A positive number over itself is 1.
pub div_self : (n : ℕ) → div (fin (pos (suc n))) (fin (pos (suc n))) ≡ of_ℕ 1
div_self n =
    let e : round_mag (suc n * one) (suc n) ≡ round_mag one 1 =
      ap (round_mag (suc n * one)) (sym (mul-one (suc n)))
      ∙ round_mag_scale one 1 (suc n) (omega arith) in
    rw (
      div_pos (pos (suc n)) n,
      pos-*ℤ_pos (suc n) one,
      of_ℕ-quot,
      quot_pos (suc n * one) (suc n),
      quot_pos one 1,
      e,
    )
