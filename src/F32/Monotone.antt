-- ===== src/F32/Monotone.antt =====
-- Rounding of magnitudes is monotone, across the doublings of the unit in the last place.
use fand.Prelude.{
  ap, ℕ, zero, suc, ◌+◌, ◌*◌, ◌/◌, ◌%◌, ◌≤◌, ◌<◌, ◌≡◌, inl, inr, false, arith, ltb, Bool-cases,
}
use native.Mathlib.Nat.{
  mul-le-mul_right, le_trans, div-add-mod, le-div_iff_mul-le, div-lt_iff_lt-mul,
}
use native.Mathlib.Decide.{dec_lt}
use fand.F32.Rounding.{nearest, round_from, round_mag}

pub nearest_bounds : (n m : ℕ) → (n / m ≤ nearest n m) × (nearest n m ≤ n / m + 1)
unfolding nearest
nearest_bounds n m = ground arith

-- At one quotient, the remainders compare.
nearest_same : (n k m : ℕ) → n / m ≡ k / m → n % m ≤ k % m → nearest n m ≤ nearest k m
unfolding nearest
nearest_same n k m e le = ground arith

nearest_mono : (n k m : ℕ) → 0 < m → n ≤ k → nearest n m ≤ nearest k m
nearest_mono n k m h le =
    let quotients : n / m ≤ k / m =
      (le-div_iff_mul-le h).1 (le_trans ((le-div_iff_mul-le h).0 (omega arith)) le) in
    elim (dec_lt (n / m) (k / m)) [
      | yes lower ↦ omega (arith, nearest_bounds n m, nearest_bounds k m)
      | no same ↦
          let e : n / m ≡ k / m = omega arith in
          nearest_same n k m e
            (omega (arith, div-add-mod n m, div-add-mod k m, ap (λ (t : ℕ). m * t) e))
    ]

-- A value that 24 bits hold at unit `u` rounds to 2 ^ 24 units at most.
nearest_upper :
    (n d u : ℕ) → 0 < d * u → n < d * (16777216 * u) → nearest n (d * u) * u ≤ 16777216 * u
nearest_upper n d u p h =
    let below : n / (d * u) < 16777216 = (div-lt_iff_lt-mul p).1 (omega arith) in
    mul-le-mul_right u (omega (arith, nearest_bounds n (d * u)))

nearest_lower :
    (n d u : ℕ) → 0 < d * u → d * (8388608 * u) ≤ n → 8388608 * u ≤ nearest n (d * u) * u
nearest_lower n d u p h =
    let above : 8388608 ≤ n / (d * u) = (le-div_iff_mul-le p).1 (omega arith) in
    mul-le-mul_right u (omega (arith, nearest_bounds n (d * u)))

-- From a unit at which the value has 24 bits, the result keeps them.
round_from_lower :
    (f u n d : ℕ) → 0 < d * u → d * (8388608 * u) ≤ n → 8388608 * u ≤ round_from f u n d
unfolding round_from
round_from_lower zero u n d p h = nearest_lower n d u p h
round_from_lower (suc f) u n d p h = elim (Bool-cases (ltb n (d * (16777216 * u)))) [
  | inl stop ↦ rw stop (nearest_lower n d u p h)
  | inr more ↦ rw more (omega (arith, round_from_lower f (2 * u) n d (omega arith) (ground arith)))
]

round_from_mono : (f u n k d : ℕ) → 0 < d * u → n ≤ k → round_from f u n d ≤ round_from f u k d
unfolding round_from
round_from_mono zero u n k d p le = mul-le-mul_right u (nearest_mono n k (d * u) p le)
round_from_mono (suc f) u n k d p le = elim (Bool-cases (ltb n (d * (16777216 * u)))) [
  | inl stop ↦ elim (Bool-cases (ltb k (d * (16777216 * u)))) [
    | inl both ↦ rw (stop, both) (mul-le-mul_right u (nearest_mono n k (d * u) p le))
    | inr more ↦
        rw (stop, more)
          (omega (
            arith,
            nearest_upper n d u p (ground arith),
            round_from_lower f (2 * u) k d (omega arith) (ground arith),
          ))
  ]
  | inr more ↦
      let also : ltb k (d * (16777216 * u)) ≡ false = ground arith in
      rw (more, also) (round_from_mono f (2 * u) n k d (omega arith) le)
]

-- A greater magnitude rounds to no less.
pub round_mag_mono : (n k d : ℕ) → 0 < d → n ≤ k → round_mag n d ≤ round_mag k d
unfolding round_mag
round_mag_mono n k d p le = round_from_mono 254 1 n k d (omega arith) le
