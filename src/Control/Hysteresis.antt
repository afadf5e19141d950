-- ===== src/Control/Hysteresis.antt =====
-- src/control/hysteresis.rs: the speed is held until the temperature leaves a band.
pub mod Laws
use fand.Prelude.{Bool, true, false, if◌then◌else◌}
use fand.F32.{F32, sub, neg, lt, of_ℕ}

pub data Direction : Type 0 where
  rising falling held : Direction

pub record HysteresisState : Type 0 where
  pub hold_rpm : F32
  pub direction : Direction
  pub last_temp : F32

unfoldable pub new : F32 → F32 → HysteresisState
new rpm temp = record { hold_rpm = rpm; direction = held; last_temp = temp }

unfoldable pub reinit : HysteresisState → F32 → F32 → HysteresisState
reinit s rpm temp = record s { hold_rpm = rpm; direction = held; last_temp = temp }

-- The match on the direction: its arms test the margins in another order.
should_emit : Direction → F32 → F32 → F32 → Bool
should_emit falling delta up down =
    if lt delta (neg down) then true else if lt up delta then true else false
should_emit _ delta up down =
    if lt up delta then true else if lt delta (neg down) then true else false

direction_of : F32 → Direction
direction_of delta =
    if lt (of_ℕ 0) delta then rising else if lt delta (of_ℕ 0) then falling else held

-- The new state, and the speed that it holds.
unfoldable pub apply : HysteresisState → F32 → F32 → F32 → F32 → HysteresisState × F32
unfolding should_emit direction_of
apply s curve_rpm temp up down =
    let delta = sub temp s.last_temp in
    if should_emit s.direction delta up down
    then (
      record s { hold_rpm = curve_rpm; last_temp = temp; direction = direction_of delta },
      curve_rpm,
    )
    else (s, s.hold_rpm)
