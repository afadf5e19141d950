-- ===== src/F32/Exact.antt =====
-- Rounding of whole multiples: a common factor cancels, so `x / x` is 1 and `1 * x` is `x`.
use fand.Prelude.{
  ℕ, zero, suc, ◌+◌, ◌*◌, ◌/◌, ◌%◌, ◌≤◌, ◌<◌, ◌≡◌, refl, sym, ◌∙◌, inl, inr, false, arith, ltb,
  ltb→lt, lt→ltb, if◌then◌else◌, Bool-cases, ap,
}
use native.Mathlib.Nat.{
  mul-div-mul_left, div-add-mod, mul_assoc, mul-le-mul_left, mul-lt-mul_of_pos_left,
}
use fand.F32.Rounding.{nearest, round_from, round_mag}

not-ltb→le : (a b : ℕ) → ltb a b ≡ false → b ≤ a
not-ltb→le a b h = ground arith

le→not-ltb : (a b : ℕ) → b ≤ a → ltb a b ≡ false
le→not-ltb a b h = ground arith

ltb_scale : (k a b : ℕ) → 0 < k → ltb (k * a) (k * b) ≡ ltb a b
ltb_scale k a b p = elim (Bool-cases (ltb a b)) [
  | inl h ↦ lt→ltb _ _ (mul-lt-mul_of_pos_left (ltb→lt a b h) p) ∙ sym h
  | inr h ↦ le→not-ltb (k * a) (k * b) (mul-le-mul_left k (not-ltb→le a b h)) ∙ sym h
]

mod_scale : (k n m : ℕ) → 0 < k → k * n % (k * m) ≡ k * (n % m)
mod_scale k n m p = omega (
  arith,
  div-add-mod (k * n) (k * m),
  ap (λ (t : ℕ). k * m * t) (mul-div-mul_left n m p),
  ap (λ (t : ℕ). k * t) (div-add-mod n m),
)

-- `nearest` by its quotient and remainder.
pick : ℕ → ℕ → ℕ → ℕ
pick t r m = if ltb (2 * r) m then t else if ltb m (2 * r) then t + 1 else t + t % 2

nearest-pick : (n m : ℕ) → nearest n m ≡ pick (n / m) (n % m) m
unfolding nearest pick
nearest-pick n m = refl

pick_scale : (k t r m : ℕ) → 0 < k → pick t (k * r) (k * m) ≡ pick t r m
unfolding pick
pick_scale k t r m p =
    let double : 2 * (k * r) ≡ k * (2 * r) = omega arith in
    rw (double, ltb_scale k (2 * r) m p, ltb_scale k m (2 * r) p)

nearest_scale : (k n m : ℕ) → 0 < k → nearest (k * n) (k * m) ≡ nearest n m
nearest_scale k n m p =
    rw (nearest-pick (k * n) (k * m), nearest-pick n m, mul-div-mul_left n m p, mod_scale k n m p)
      (pick_scale k (n / m) (n % m) m p)

round_from_scale : (f u n d k : ℕ) → 0 < k → round_from f u (k * n) (k * d) ≡ round_from f u n d
unfolding round_from
round_from_scale zero u n d k p = rw (mul_assoc k d u, nearest_scale k n (d * u) p)
round_from_scale (suc f) u n d k p = rw (
  mul_assoc k d u,
  mul_assoc k d (16777216 * u),
  nearest_scale k n (d * u) p,
  ltb_scale k n (d * (16777216 * u)) p,
  round_from_scale f (2 * u) n d k p,
)

-- A factor common to both parts of a magnitude cancels.
pub round_mag_scale : (n d k : ℕ) → 0 < k → round_mag (k * n) (k * d) ≡ round_mag n d
unfolding round_mag
round_mag_scale n d k p = round_from_scale 254 1 n d k p
