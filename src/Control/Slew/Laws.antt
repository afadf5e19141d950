-- ===== src/Control/Slew/Laws.antt =====
-- The slew limiter: rises pass, falls are bounded by the ramp.
use fand.Prelude.{◌≡◌, true, refl}
use fand.F32
use fand.F32.{F32, sub, mul, le, lt, of_ℕ, is_nan, is_finite}
use fand.F32.Order.{Le, lt→le, lt→not-le, le→not_nan}
use fand.F32.Arith.{IsRounded, zero_f32, sub-le_self}
use fand.F32.Sign.{
  le-max_left, le-max_right, max-le, min-one_bounds, min-eq_right, mul_nonneg, of_ℕ-one,
}
use fand.Control.Slew.{limit}

-- How far the target may fall in this tick is not negative.
max_down_nonneg :
    (ramp dt : F32)
    → is_finite ramp ≡ true
    → Le zero_f32 ramp
    → Le zero_f32 dt
    → Le zero_f32 (mul ramp (F32.min dt (of_ℕ 1)))
max_down_nonneg ramp dt f h k =
    rw of_ℕ-one (mul_nonneg ramp _ f (min-one_bounds dt k).1 h (min-one_bounds dt k).0)

-- A target at or above the previous speed passes unchanged.
pub limit_up : (prev target ramp dt : F32) → Le prev target → limit prev target ramp dt ≡ target
unfolding limit
limit_up prev target ramp dt h = rw h

-- For a target below the previous speed, where that is a finite float, the ramp is finite and not
-- negative and the time is not negative, the result lies between the target and the previous speed
-- and is not below the previous speed less the ramp over the time, of which one second counts at
-- most.
pub limit_down :
    (prev target ramp dt : F32)
    → is_finite prev ≡ true
    → IsRounded prev
    → is_finite ramp ≡ true
    → Le zero_f32 ramp
    → Le zero_f32 dt
    → lt target prev ≡ true
    → let result = limit prev target ramp dt in
      Le target result × Le result prev × Le (sub prev (mul ramp (F32.min dt (of_ℕ 1)))) result
unfolding limit
limit_down prev target ramp dt f r g h k below =
    let falls = mul ramp (F32.min dt (of_ℕ 1)) in
    let lower : Le (sub prev falls) prev =
      sub-le_self prev falls f r (max_down_nonneg ramp dt g h k) in
    let under : Le target prev = lt→le target prev below in
    rw (lt→not-le target prev below) (
      le-max_left target (sub prev falls) (le→not_nan target prev under).0,
      max-le target (sub prev falls) prev under lower,
      le-max_right target (sub prev falls) (le→not_nan _ prev lower).0,
    )

-- For a time of a second or more the result is that for one second.
pub limit_dt_clamped :
    (prev target ramp dt : F32)
    → Le (of_ℕ 1) dt
    → limit prev target ramp dt ≡ limit prev target ramp (of_ℕ 1)
unfolding limit
limit_dt_clamped prev target ramp dt h =
    rw (min-eq_right dt (of_ℕ 1) h, min-eq_right (of_ℕ 1) (of_ℕ 1) (rw of_ℕ-one refl))
