-- ===== src/F32/Idempotent.antt =====
-- A rounded value is its own rounding: every result of arithmetic is a float.
use fand.Prelude.{
  ℕ, zero, suc, ◌*◌, ◌/◌, ◌^◌, ◌≤◌, ◌<◌, ◌≡◌, ◌⊎◌, sym, ◌∙◌, inl, inr, true, false, arith, ltb,
  ltb→lt, Bool-cases, ap,
}
use fand.Prelude.Int.{ℤ, pos, negsuc, ◌+ℤ◌}
use native.Mathlib.Nat.{mul-div_left, mul-mod_left, pow-suc, div-lt_iff_lt-mul, mul-le-mul_right}
use fand.F32.Rounding.{nearest, round_from, round_mag}
use fand.F32.Order.{quot_pos, quot_neg}
use fand.F32.Monotone.{nearest_bounds}
use fand.F32.{
  F32, fin, pos_inf, neg_inf, quot, positive, nan, add, sub, neg, of_ℕ, one, negative, overflow,
}
use fand.F32.Arith.{IsRounded}

not-ltb→le : (a b : ℕ) → ltb a b ≡ false → b ≤ a
not-ltb→le a b h = ground arith

lt→le : (a b : ℕ) → ltb a b ≡ true → a ≤ b
lt→le a b h = ground arith

nearest_24 : (n d u : ℕ) → 0 < d * u → n < d * (16777216 * u) → nearest n (d * u) ≤ 16777216
nearest_24 n d u p h =
    let below : n / (d * u) < 16777216 = (div-lt_iff_lt-mul p).1 (omega arith) in
    omega (arith, nearest_bounds n (d * u))

nearest_multiple : (t m : ℕ) → 0 < m → nearest (t * m) m ≡ t
unfolding nearest
nearest_multiple t m p = ground (arith, mul-div_left t p, mul-mod_left t m)

exact : (n u c : ℕ) → 0 < u → n ≡ c * u → nearest n (1 * u) * u ≡ n
exact n u c p e = let one_u : 1 * u ≡ u = omega arith in rw (one_u, e, nearest_multiple c u p)

pow_step : (t j u : ℕ) → t * (2 ^ suc j * u) ≡ t * (2 ^ j * (2 * u))
pow_step t j u = omega (arith, ap (λ (x : ℕ). t * (x * u)) (pow-suc 2 j))

-- A multiple `t * 2 ^ j` of the unit, of 24 bits, is left alone.
round_from_fixed :
    (f u n t j : ℕ) → 0 < u → t ≤ 16777216 → n ≡ t * (2 ^ j * u) → round_from f u n 1 ≡ n
unfolding round_from
round_from_fixed zero u n t j p h e = exact n u (t * 2 ^ j) p (omega arith)
round_from_fixed (suc f) u n t zero p h e = elim (Bool-cases (ltb n (1 * (16777216 * u)))) [
  | inl stop ↦ rw stop (exact n u t p (omega arith))
  | inr more ↦ rw more (
      round_from_fixed f (2 * u) n 8388608 zero (omega arith) (omega arith)
        (omega (arith, not-ltb→le _ _ more, mul-le-mul_right u h)))
]
round_from_fixed (suc f) u n t (suc j) p h e = elim (Bool-cases (ltb n (1 * (16777216 * u)))) [
  | inl stop ↦ rw stop (exact n u (t * 2 ^ suc j) p (omega arith))
  | inr more ↦ rw more (round_from_fixed f (2 * u) n t j (omega arith) h (e ∙ pow_step t j u))
]

-- What a rounding gives: 24 bits at some unit, or more than the last unit can hold.
Shaped : ℕ → ℕ → ℕ → Type 0
Shaped f u r =
    (t : ℕ) × (j : ℕ) × (r ≡ t * (2 ^ j * u)) × ((t ≤ 16777216) ⊎ (16777216 * (2 ^ f * u) ≤ r))

Shaped-here : (f u t : ℕ) → t ≤ 16777216 → Shaped f u (t * u)
unfolding Shaped
Shaped-here f u t h = (t, 0, omega arith, inl h)

Shaped-next : (f u r : ℕ) → Shaped f (2 * u) r → Shaped (suc f) u r
unfolding Shaped
Shaped-next f u r (t, j, e, inl h) = (t, suc j, e ∙ sym (pow_step t j u), inl h)
Shaped-next f u r (t, j, e, inr h) =
    (t, suc j, e ∙ sym (pow_step t j u), inr (omega (arith, pow_step 16777216 f u)))

Shaped-last : (u t : ℕ) → Shaped 0 u (t * u)
unfolding Shaped
Shaped-last u t = elim (Bool-cases (ltb 16777216 t)) [
  | inl h ↦ (t, 0, omega arith, inr (omega (arith, mul-le-mul_right u (lt→le _ _ h))))
  | inr h ↦ (t, 0, omega arith, inl (not-ltb→le _ _ h))
]

round_from-Shaped : (f u n d : ℕ) → 0 < d * u → Shaped f u (round_from f u n d)
unfolding round_from
round_from-Shaped zero u n d p = Shaped-last u (nearest n (d * u))
round_from-Shaped (suc f) u n d p = elim (Bool-cases (ltb n (d * (16777216 * u)))) [
  | inl stop ↦ rw stop (Shaped-here (suc f) u _ (nearest_24 n d u p (ltb→lt _ _ stop)))
  | inr more ↦ rw more (Shaped-next f u _ (round_from-Shaped f (2 * u) n d (omega arith)))
]

fixed_of_Shaped : (r : ℕ) → Shaped 254 1 r → r < overflow → round_mag r 1 ≡ r
unfolding Shaped round_mag
fixed_of_Shaped r (t, j, e, inl h) p = round_from_fixed 254 1 r t j (omega arith) h e
fixed_of_Shaped r (t, j, e, inr h) p = absurd (omega arith)

-- A rounded magnitude that does not overflow rounds to itself.
pub round_mag_idem :
    (n d : ℕ) → 0 < d → round_mag n d < overflow → round_mag (round_mag n d) 1 ≡ round_mag n d
unfolding round_mag
round_mag_idem n d p h =
    fixed_of_Shaped (round_from 254 1 n d) (round_from-Shaped 254 1 n d (omega arith)) h

positive-IsRounded : (m : ℕ) → (m < overflow → round_mag m 1 ≡ m) → IsRounded (positive m)
positive-IsRounded m h = elim (Bool-cases (ltb m overflow)) [
  | inl p ↦ rw (p, quot_pos m 1, h (ltb→lt _ _ p), p)
  | inr p ↦ rw p tt
]

negative-IsRounded : (m : ℕ) → (m < overflow → round_mag m 1 ≡ m) → IsRounded (negative m)
negative-IsRounded zero h = rw (quot_pos 0 1, h (omega arith))
negative-IsRounded (suc m) h = elim (Bool-cases (ltb (suc m) overflow)) [
  | inl p ↦ rw (p, quot_neg m 1, h (ltb→lt _ _ p), p)
  | inr p ↦ rw p tt
]

-- Every rounded quotient is a float.
pub quot-IsRounded : (a : ℤ) (d : ℕ) → 0 < d → IsRounded (quot a d)
quot-IsRounded (pos n) d p = rw (quot_pos n d) (positive-IsRounded _ (round_mag_idem n d p))
quot-IsRounded (negsuc n) d p =
    rw (quot_neg n d) (negative-IsRounded _ (round_mag_idem (suc n) d p))

pub add-IsRounded : (a b : F32) → IsRounded (add a b)
unfolding add
add-IsRounded (fin a) (fin b) = quot-IsRounded (a +ℤ b) 1 (omega arith)
add-IsRounded (fin a) nan = tt
add-IsRounded (fin a) pos_inf = tt
add-IsRounded (fin a) neg_inf = tt
add-IsRounded nan b = tt
add-IsRounded pos_inf nan = tt
add-IsRounded pos_inf pos_inf = tt
add-IsRounded pos_inf neg_inf = tt
add-IsRounded pos_inf (fin b) = tt
add-IsRounded neg_inf nan = tt
add-IsRounded neg_inf pos_inf = tt
add-IsRounded neg_inf neg_inf = tt
add-IsRounded neg_inf (fin b) = tt

pub sub-IsRounded : (a b : F32) → IsRounded (sub a b)
unfolding sub
sub-IsRounded a b = add-IsRounded a (neg b)

pub of_ℕ-IsRounded : (n : ℕ) → IsRounded (of_ℕ n)
unfolding of_ℕ
of_ℕ-IsRounded n = quot-IsRounded (pos (n * one)) 1 (omega arith)
