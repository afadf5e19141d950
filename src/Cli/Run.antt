-- ===== src/Cli/Run.antt =====
-- `execute_commit` of src/cli/run.rs: the tick loop, from the sensors to the mode of each fan.
-- The log lines are left out. The state and the adapter of a fan, which the code keeps in two
-- vectors of one length, are a pair. `elapsed` is what the monotonic clock says of a tick.
pub mod Laws
pub mod Sleep
mod Tests
use fand.Prelude.{
  ℕ, ◌-◌, ◌*◌, max, Bool, not, ◌||◌, ◌&&◌, ◌==◌, ltb, Option, none, some, List, [], ◌∷◌, ◌⊎◌, inl,
  inr, map, length, if◌then◌else◌,
}
use fand.Prelude.Text.{Text, codes, same_text}
use fand.F32
use fand.F32.{F32, nan, neg_inf, is_finite, lt, of_ℕ}
use fand.Config.Schema.{FanBinding, SensorRef}
use fand.Control.Fusion.{FusionMode}
use fand.Control.Clamp
use fand.Control.Adapter
use fand.Control.Adapter.{AppleSiliconAdapter, AppleSiliconDecision, forced_minimum, auto, decide}
use fand.Control.Loop
use fand.Control.Loop.{FanControlState, Settings, Reading, tick, reinit_bumpless}
use fand.Smc.Error.{SmcError, Fan}
use fand.Smc.Value.{from_be_bytes}
use fand.Smc.Ffi.{Device, SmcConnection}
use fand.Smc.Ffi.Read.{read_f32}
use fand.Smc.Session.{WriteSession, on_conn, heartbeat, read_actual_rpm, fan_envelope}
use fand.Cli.Run.Sleep.{is_wake}
use fand.Smc.Session.Commit.{commit_set_fan}
use fand.Smc.Session.Teardown.{teardown}

abbrev fourcc_str : SensorRef → Text
fourcc_str (SensorRef.name n) = n
fourcc_str (SensorRef.smc n) = n

-- `unwrap_or`.
abbrev or_else : {A : Type 0} → A → SmcError ⊎ A → A
or_else a (inl e) = a
or_else a (inr b) = b

-- NaN, or a value outside of [0, 150].
unfoldable pub is_dropout : F32 → Bool
is_dropout v = not (is_finite v) || (lt v (of_ℕ 0) || lt (of_ℕ 150) v)

-- `collect`, where each element may end the process.
abbrev both : {A : Type 0} → Option A → Option (List A) → Option (List A)
both none rest = none
both (some a) none = none
both (some a) (some rest) = some (a ∷ rest)

-- The settings of a fan, as `tick` takes them.
unfoldable pub settings_of : FanBinding → Settings
settings_of fan = record {
  fusion_mode = if same_text fan.fusion (codes "mean") then FusionMode.mean else FusionMode.max;
  breakpoints = fan.curve;
  alpha = fan.smoothing_alpha;
  hyst_up = fan.hysteresis_up;
  hyst_down = fan.hysteresis_down;
  ramp_down_rpm_per_s = of_ℕ fan.ramp_down_rpm_per_s;
  panic_temp_c = fan.panic_temp_c;
  panic_hold_s = fan.panic_hold_s;
}

-- The two ends of the regulation of a fan.
pub record Regulator : Type 0 where
  pub fan_state : FanControlState
  pub adapter : AppleSiliconAdapter

-- What a tick reads of the clock, and the interval of the configuration.
pub record Moment : Type 0 where
  pub tick_start : ℕ
  pub elapsed_secs : ℕ → F32
  pub poll_interval : ℕ
  pub tick_elapsed : ℕ  -- at its end, in nanoseconds

module _ {D : Type 0} (sys : Device D) where
  -- A name that is not four bytes is no key.
  unfoldable pub read_sensor : SensorRef → WriteSession D → F32 × WriteSession D
  read_sensor sensor s =
      let r = on_conn (read_f32 sys (from_be_bytes (fourcc_str sensor))) s in
      if not (length (fourcc_str sensor) == 4) then (nan, s) else (or_else nan r.0, r.1)

  unfoldable pub read_sensors : List SensorRef → WriteSession D → List F32 × WriteSession D
  read_sensors [] s = ([], s)
  read_sensors (sensor ∷ sensors) s =
      let r = read_sensor sensor s in let rest = read_sensors sensors r.1 in (r.0 ∷ rest.0, rest.1)

  -- Stage 10. An error of the commit is only logged.
  unfoldable pub apply_decision :
      Option F32
      → FanBinding
      → FanControlState
      → AppleSiliconDecision
      → WriteSession D
      → WriteSession D
  apply_decision env fan state forced_minimum s =
      (commit_set_fan sys fan.index (Clamp.new env state.min_rpm state.min_rpm state.max_rpm) s).1
  apply_decision env fan state auto s = s

  -- The regulator of a fan after a tick on these sensor values.
  unfoldable pub regulate : Option F32 → FanBinding → Moment → List F32 → Regulator → Regulator
  regulate env fan moment sensor_values r =
      let (state, target_rpm) = tick env r.fan_state (settings_of fan) (record {
        sensor_values = sensor_values;
        sensor_dropouts = map is_dropout sensor_values;
        actual_dt_secs = F32.max (moment.elapsed_secs fan.index) (F32.ratio 1 1000);
        now = moment.tick_start;
      }) in
      record {
        fan_state = state;
        adapter = decide r.adapter target_rpm state.min_rpm state.max_rpm;
      }

  -- One fan in one tick.
  unfoldable pub tick_fan :
      Option F32 → Moment → FanBinding → Regulator → WriteSession D → Regulator × WriteSession D
  tick_fan env moment fan r s =
      let (sensor_values, s1) = read_sensors fan.sensors s in
      let r1 = regulate env fan moment sensor_values r in
      (r1, apply_decision env fan r1.fan_state r1.adapter.current s1)

  -- `get_mut` finds no regulator for a fan that is past the end: `continue`.
  unfoldable pub tick_fans :
      Option F32
      → Moment
      → List FanBinding
      → List Regulator
      → WriteSession D
      → List Regulator × WriteSession D
  tick_fans env moment [] rs s = (rs, s)
  tick_fans env moment (fan ∷ fans) [] s = ([], s)
  tick_fans env moment (fan ∷ fans) (r ∷ rs) s =
      let first = tick_fan env moment fan r s in
      let rest = tick_fans env moment fans rs first.1 in (first.0 ∷ rest.0, rest.1)

  -- `read_max_sensor_temp` on the session's connection, from the highest reading so far.
  unfoldable pub max_temp_from : List SensorRef → F32 → WriteSession D → F32 × WriteSession D
  max_temp_from [] max_temp s = (max_temp, s)
  max_temp_from (sensor ∷ sensors) max_temp s =
      let r = read_sensor sensor s in
      let higher = not (is_dropout r.0) && lt max_temp r.0 in
      max_temp_from sensors (if higher then r.0 else max_temp) r.1

  -- 65 degrees where no sensor could be read.
  unfoldable pub read_max_sensor_temp : FanBinding → WriteSession D → F32 × WriteSession D
  read_max_sensor_temp fan s =
      let (max_temp, s1) = max_temp_from fan.sensors neg_inf s in
      (if F32.le max_temp neg_inf then of_ℕ 65 else max_temp, s1)

  -- After a sleep of the machine: each fan starts again from what it does now.
  unfoldable pub wake_fan : FanBinding → Regulator → WriteSession D → Regulator × WriteSession D
  wake_fan fan r s =
      let actual = read_actual_rpm sys fan.index s in
      let (temp, s1) = read_max_sensor_temp fan actual.1 in
      (
        record r {
          fan_state = reinit_bumpless r.fan_state (or_else r.fan_state.min_rpm actual.0) temp;
        },
        s1,
      )

  unfoldable pub wake_fans :
      List FanBinding → List Regulator → WriteSession D → List Regulator × WriteSession D
  wake_fans [] rs s = (rs, s)
  wake_fans (fan ∷ fans) [] s = ([], s)
  wake_fans (fan ∷ fans) (r ∷ rs) s =
      let first = wake_fan fan r s in
      let rest = wake_fans fans rs first.1 in (first.0 ∷ rest.0, rest.1)

  -- A tick, with the heartbeat at its end, and what follows a tick that took too long.
  unfoldable pub run_tick :
      Option F32
      → List FanBinding
      → Moment
      → List Regulator × WriteSession D
      → List Regulator × WriteSession D
  run_tick env fans moment (rs, s) =
      let r = tick_fans env moment fans rs s in
      let s1 = (heartbeat sys r.1).1 in
      if is_wake moment.poll_interval moment.tick_elapsed then wake_fans fans r.0 s1 else (r.0, s1)

  unfoldable pub run_ticks :
      Option F32
      → List FanBinding
      → List Moment
      → List Regulator × WriteSession D
      → List Regulator × WriteSession D
  run_ticks env fans [] p = p
  run_ticks env fans (moment ∷ moments) p = run_ticks env fans moments (run_tick env fans moment p)

  -- The envelopes of the configured fans; one that the session does not know ends the process.
  unfoldable pub envelopes_of : List FanBinding → WriteSession D → Option (List Fan)
  envelopes_of [] s = some []
  envelopes_of (fan ∷ fans) s = both (fan_envelope s fan.index) (envelopes_of fans s)

  -- A fan starts from the speed that it has.
  unfoldable pub seed_fan : FanBinding → Fan → WriteSession D → Regulator × WriteSession D
  seed_fan fan e s =
      let actual = read_actual_rpm sys fan.index s in
      let (temp, s1) = read_max_sensor_temp fan actual.1 in
      (
        record {
          fan_state = Loop.new fan.index e.min_rpm e.max_rpm (or_else e.min_rpm actual.0) temp;
          adapter = Adapter.new;
        },
        s1,
      )

  unfoldable pub seed_fans :
      List FanBinding → List Fan → WriteSession D → List Regulator × WriteSession D
  seed_fans [] es s = ([], s)
  seed_fans (fan ∷ fans) [] s = ([], s)
  seed_fans (fan ∷ fans) (e ∷ es) s =
      let first = seed_fan fan e s in
      let rest = seed_fans fans es first.1 in (first.0 ∷ rest.0, rest.1)

  -- From the acquired session on, for as many ticks as there are moments. Without `--once` the loop
  -- never ends by itself.
  unfoldable pub run_from :
      Option F32
      → List FanBinding
      → List Moment
      → Option (List Fan)
      → WriteSession D
      → List Regulator × WriteSession D
  run_from env fans moments none s = ([], s)
  run_from env fans moments (some es) s = run_ticks env fans moments (seed_fans fans es s)

  unfoldable pub execute_commit :
      Option F32 → List FanBinding → List Moment → WriteSession D → List Regulator × WriteSession D
  execute_commit env fans moments s = run_from env fans moments (envelopes_of fans s) s

  -- With `--once`: the loop is left after the first tick, and the session is dropped, which tears it
  -- down. A fan that the session does not know ends the process with no drop.
  unfoldable pub once_from :
      Option F32 → List FanBinding → Moment → Option (List Fan) → WriteSession D → WriteSession D
  once_from env fans moment none s = s
  once_from env fans moment (some es) s =
      let seeded = seed_fans fans es s in
      let ticked = tick_fans env moment fans seeded.0 seeded.1 in
      teardown sys (heartbeat sys ticked.1).1

  unfoldable pub execute_once :
      Option F32 → List FanBinding → Moment → WriteSession D → WriteSession D
  execute_once env fans moment s = once_from env fans moment (envelopes_of fans s) s
