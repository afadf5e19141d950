-- ===== src/Control/Loop.antt =====
-- src/control/loop.rs: the state of a fan, and one tick of its pipeline.
pub mod Laws
pub mod Safety
use fand.Prelude.{
  ℕ, ◌+◌, Bool, true, false, not, ◌||◌, ◌&&◌, Option, none, some, List, [], ◌∷◌, ltb, set, get_or,
  if◌then◌else◌,
}
use fand.F32.{F32, of_ℕ}
use fand.Control.Fusion.{FusionMode, fuse}
use fand.Control.Ema.{smooth}
use fand.Control.Curve.{Breakpoint, evaluate}
use fand.Control.Hysteresis
use fand.Control.Hysteresis.{HysteresisState}
use fand.Control.Slew.{limit}
use fand.Control.Panic
use fand.Control.Panic.{PanicState, PanicAction}
use fand.Control.Clamp
use fand.Control.Clamp.{ClampedRpm}

pub record FanControlState : Type 0 where
  pub fan_index : ℕ
  pub active : Bool
  pub min_rpm : F32
  pub max_rpm : F32
  pub driver_temp_raw : F32
  pub driver_temp_smoothed : F32
  pub hysteresis : HysteresisState
  pub slew_limited_rpm : F32
  pub final_target : Option ClampedRpm
  pub panic_state : PanicState
  pub consecutive_write_errors : ℕ
  pub last_known_good_temp : F32
  pub last_known_good_age_ticks : ℕ  -- u32

unfoldable pub new : ℕ → F32 → F32 → F32 → F32 → FanControlState
unfolding Hysteresis.new Panic.new
new index low high actual temp = record {
  fan_index = index;
  active = false;
  min_rpm = low;
  max_rpm = high;
  driver_temp_raw = temp;
  driver_temp_smoothed = temp;
  hysteresis = Hysteresis.new actual temp;
  slew_limited_rpm = actual;
  final_target = none;
  panic_state = Panic.new;
  consecutive_write_errors = 0;
  last_known_good_temp = temp;
  last_known_good_age_ticks = 0;
}

unfoldable pub reinit_bumpless : FanControlState → F32 → F32 → FanControlState
unfolding Hysteresis.reinit
reinit_bumpless s actual temp = record s {
  slew_limited_rpm = actual;
  driver_temp_smoothed = temp;
  hysteresis = Hysteresis.reinit s.hysteresis actual temp;
}

-- The arguments of `tick` that the configuration of a fan fixes.
pub record Settings : Type 0 where
  pub fusion_mode : FusionMode
  pub breakpoints : List Breakpoint
  pub alpha : F32
  pub hyst_up : F32
  pub hyst_down : F32
  pub ramp_down_rpm_per_s : F32
  pub panic_temp_c : F32
  pub panic_hold_s : ℕ

-- Those that each tick reads.
pub record Reading : Type 0 where
  pub sensor_values : List F32
  pub sensor_dropouts : List Bool
  pub actual_dt_secs : F32
  pub now : ℕ

-- `dropouts.iter().any(|d| !d)`.
unfoldable pub any_valid : List Bool → Bool
any_valid [] = false
any_valid (d ∷ ds) = not d || any_valid ds

abbrev pub saturating_suc_u32 : ℕ → ℕ
saturating_suc_u32 n = if ltb n 4294967295 then n + 1 else 4294967295

-- Stage 2 and the bookkeeping of the last good reading, the two arms of its `if` field by field.
unfoldable pub sense : FanControlState → Settings → Reading → FanControlState
sense s c r =
    let raw = fuse r.sensor_values r.sensor_dropouts c.fusion_mode s.last_known_good_temp in
    let seen = any_valid r.sensor_dropouts in
    record s {
      driver_temp_raw = raw;
      last_known_good_temp = if seen then raw else s.last_known_good_temp;
      last_known_good_age_ticks =
          if seen then 0 else saturating_suc_u32 s.last_known_good_age_ticks;
    }

-- The early return: no sensor for more than 60 ticks.
unfoldable pub is_blind : FanControlState → Reading → Bool
is_blind s r = not (any_valid r.sensor_dropouts) && ltb 60 s.last_known_good_age_ticks

-- Stages 3 to 6.
unfoldable pub shape : FanControlState → Settings → Reading → FanControlState
shape s c r =
    let smoothed = smooth s.driver_temp_smoothed s.driver_temp_raw c.alpha in
    let (hysteresis, hyst_rpm) =
      Hysteresis.apply s.hysteresis (evaluate c.breakpoints smoothed) smoothed c.hyst_up
        c.hyst_down in
    record s {
      driver_temp_smoothed = smoothed;
      hysteresis = hysteresis;
      slew_limited_rpm = limit s.slew_limited_rpm hyst_rpm c.ramp_down_rpm_per_s r.actual_dt_secs;
    }

unfoldable pub request : FanControlState → PanicAction → F32
request s PanicAction.force_fx_mx = s.max_rpm
request s PanicAction.passthrough = s.slew_limited_rpm

-- Stages 7 and 9: the panic check on the raw temperature, and the clamp.
unfoldable pub finish : Option F32 → FanControlState → Settings → Reading → FanControlState × F32
finish env s c r =
    let (panic, action) =
      Panic.check s.panic_state s.driver_temp_raw c.panic_temp_c c.panic_hold_s r.now in
    let clamped = Clamp.new env (request s action) s.min_rpm s.max_rpm in
    (record s { panic_state = panic; final_target = some clamped }, of_ℕ clamped.value)

-- The new state, and the speed that is returned.
unfoldable pub tick : Option F32 → FanControlState → Settings → Reading → FanControlState × F32
tick env s c r =
    let sensed = sense s c r in
    if is_blind sensed r then (sensed, sensed.max_rpm) else finish env (shape sensed c r) c r
