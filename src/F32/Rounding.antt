-- ===== src/F32/Rounding.antt =====
-- Rounding of a magnitude `n / d`, in units of 2 ^ -149, to 24 significant bits: to the nearest
-- multiple of the unit in the last place, and to an even multiple at a tie.
use fand.Prelude.{ℕ, zero, suc, ◌+◌, ◌*◌, ◌/◌, ◌%◌, ltb, if◌then◌else◌}

-- The multiple of `u` that is nearest to `n / d`, over `m = d * u`.
unfoldable pub nearest : ℕ → ℕ → ℕ
nearest n m =
    let t = n / m in
    let r = n % m in if ltb (2 * r) m then t else if ltb m (2 * r) then t + 1 else t + t % 2

-- The unit in the last place starts at the least positive number and doubles until 24 bits hold
-- the value. 254 doublings pass the largest finite number.
unfoldable pub round_from : ℕ → ℕ → ℕ → ℕ → ℕ
round_from zero u n d = nearest n (d * u) * u
round_from (suc f) u n d =
    let rest = round_from f (2 * u) n d in
    if ltb n (d * (16777216 * u)) then nearest n (d * u) * u else rest

unfoldable pub round_mag : ℕ → ℕ → ℕ
unfolding round_from nearest
round_mag n d = round_from 254 1 n d
