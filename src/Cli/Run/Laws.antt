-- ===== src/Cli/Run/Laws.antt =====
-- What the ticks of the daemon ask of the kernel.
use fand.Prelude.{
  ℕ, ◌≡◌, ◌≢◌, refl, sym, subst, Option, none, some, List, [], ◌∷◌, All, inl, inr, ◌⊎◌, get_or,
  if_both,
}
use fand.F32.{F32}
use fand.Config.Schema.{FanBinding, SensorRef}
use fand.Control.Adapter.{AppleSiliconDecision, forced_minimum, auto}
use fand.Control.Loop.{FanControlState}
use fand.Smc.Keys.{WritableKey, fan_mode, fan_target, ftst, fourcc}
use fand.Smc.Ffi.{SmcParamStruct, Device, SmcConnection, close}
use fand.Smc.Ffi.Read.{KeyInfo}
use fand.Smc.Ffi.Write.{smc_cmd_write_key, writing}
use fand.Smc.Ffi.Invariant.{IsKept, read_f32_keeps}
use fand.Smc.Ffi.Traced.{calls_kept}
use fand.Smc.Ffi.Laws.{Trace, traced, close-trace}
use fand.Smc.Session.{WriteSession, heartbeat, read_actual_rpm}
use fand.Smc.Session.Writes.{IsSafe, IsForcing, forcing, OfConn, on_conn_keeps}
use fand.Smc.Session.Invariant.{heartbeat_keeps, commit_set_fan_keeps, teardown_keeps}
use fand.Smc.Session.Invariant.Safety.{AreSafeCalls, safe_kept}
use fand.Smc.Error.{Fan}
use fand.Cli.Run.{
  envelopes_of, seed_fan, seed_fans, run_from, execute_commit, once_from, execute_once, Regulator,
  Moment, read_sensor, read_sensors, apply_decision, tick_fan, tick_fans, max_temp_from,
  read_max_sensor_temp, wake_fan, wake_fans, run_tick, run_ticks,
}

module _ {D : Type 0} {sys : Device D} {Allowed : SmcParamStruct → Type 0}
    {P : SmcConnection D → Type 0} (k : IsKept sys Allowed P) where
  read_sensor_keeps :
      (sensor : SensorRef) (s : WriteSession D) → P s.conn → P (read_sensor sys sensor s).1.conn
  unfolding read_sensor OfConn
  read_sensor_keeps sensor s p =
      if_both (λ (r : F32 × WriteSession D). P r.1.conn) _ p
        ((on_conn_keeps (read_f32_keeps k _)).kept s p)

  read_sensors_keeps :
      (sensors : List SensorRef) (s : WriteSession D)
      → P s.conn
      → P (read_sensors sys sensors s).1.conn
  unfolding read_sensors
  read_sensors_keeps [] s p = p
  read_sensors_keeps (sensor ∷ sensors) s p =
      read_sensors_keeps sensors (read_sensor sys sensor s).1 (read_sensor_keeps sensor s p)

  max_temp_from_keeps :
      (sensors : List SensorRef) (max_temp : F32) (s : WriteSession D)
      → P s.conn
      → P (max_temp_from sys sensors max_temp s).1.conn
  unfolding max_temp_from
  max_temp_from_keeps [] max_temp s p = p
  max_temp_from_keeps (sensor ∷ sensors) max_temp s p =
      max_temp_from_keeps sensors _ (read_sensor sys sensor s).1 (read_sensor_keeps sensor s p)

  wake_fans_keeps :
      (fans : List FanBinding) (rs : List Regulator) (s : WriteSession D)
      → P s.conn
      → P (wake_fans sys fans rs s).1.conn
  unfolding wake_fans wake_fan read_max_sensor_temp read_actual_rpm OfConn
  wake_fans_keeps [] rs s p = p
  wake_fans_keeps (fan ∷ fans) [] s p = p
  wake_fans_keeps (fan ∷ fans) (r ∷ rs) s p =
      wake_fans_keeps fans rs _
        (max_temp_from_keeps fan.sensors _ _ ((on_conn_keeps (read_f32_keeps k _)).kept s p))

  seed_fans_keeps :
      (fans : List FanBinding) (es : List Fan) (s : WriteSession D)
      → P s.conn
      → P (seed_fans sys fans es s).1.conn
  unfolding seed_fans seed_fan read_max_sensor_temp read_actual_rpm OfConn
  seed_fans_keeps [] es s p = p
  seed_fans_keeps (fan ∷ fans) [] s p = p
  seed_fans_keeps (fan ∷ fans) (e ∷ es) s p =
      seed_fans_keeps fans es _
        (max_temp_from_keeps fan.sensors _ _ ((on_conn_keeps (read_f32_keeps k _)).kept s p))

  module _
      (safe : (key : WritableKey) (value : ℕ) (ki : KeyInfo)
        → IsForcing key value
        → Allowed
            (record (writing (fourcc key) ki (value ∷ [])) { data8 = smc_cmd_write_key })) where
    apply_decision_keeps :
        (env : Option F32) (fan : FanBinding) (state : FanControlState)
        (decision : AppleSiliconDecision) (s : WriteSession D)
        → P s.conn
        → P (apply_decision sys env fan state decision s).conn
    unfolding apply_decision OfConn
    apply_decision_keeps env fan state forced_minimum s p =
        (commit_set_fan_keeps k safe fan.index _).kept s p
    apply_decision_keeps env fan state auto s p = p

    tick_fans_keeps :
        (env : Option F32) (moment : Moment) (fans : List FanBinding) (rs : List Regulator)
        (s : WriteSession D)
        → P s.conn
        → P (tick_fans sys env moment fans rs s).1.conn
    unfolding tick_fans tick_fan
    tick_fans_keeps env moment [] rs s p = p
    tick_fans_keeps env moment (fan ∷ fans) [] s p = p
    tick_fans_keeps env moment (fan ∷ fans) (r ∷ rs) s p =
        tick_fans_keeps env moment fans rs _
          (apply_decision_keeps env fan _ _ _ (read_sensors_keeps fan.sensors s p))

    run_ticks_keeps :
        (env : Option F32) (fans : List FanBinding) (moments : List Moment) (rs : List Regulator)
        (s : WriteSession D)
        → P s.conn
        → P (run_ticks sys env fans moments (rs, s)).1.conn
    unfolding run_ticks run_tick OfConn
    run_ticks_keeps env fans [] rs s p = p
    run_ticks_keeps env fans (moment ∷ moments) rs s p =
        let r = tick_fans sys env moment fans rs s in
        let s1 = (heartbeat sys r.1).1 in
        let p1 = (heartbeat_keeps k safe).kept r.1 (tick_fans_keeps env moment fans rs s p) in
        run_ticks_keeps env fans moments _ _ (
          if_both (λ (q : List Regulator × WriteSession D). P q.1.conn) _
            (wake_fans_keeps fans r.0 s1 p1) p1)

    run_from_keeps :
        (env : Option F32) (fans : List FanBinding) (moments : List Moment) (es : Option (List Fan))
        (s : WriteSession D)
        → P s.conn
        → P (run_from sys env fans moments es s).1.conn
    unfolding run_from
    run_from_keeps env fans moments none s p = p
    run_from_keeps env fans moments (some es) s p =
        run_ticks_keeps env fans moments _ _ (seed_fans_keeps fans es s p)

module _ {D : Type 0} {sys : Device D} {Allowed : SmcParamStruct → Type 0}
    {P : SmcConnection D → Type 0} (k : IsKept sys Allowed P)
    (safe : (key : WritableKey) (value : ℕ) (ki : KeyInfo)
      → IsSafe key value
      → Allowed (record (writing (fourcc key) ki (value ∷ [])) { data8 = smc_cmd_write_key }))
    (closes : (c : SmcConnection D) → P c → P (close sys c)) where
  once_from_keeps :
      (env : Option F32) (fans : List FanBinding) (moment : Moment) (es : Option (List Fan))
      (s : WriteSession D)
      → P s.conn
      → P (once_from sys env fans moment es s).conn
  unfolding once_from OfConn
  once_from_keeps env fans moment none s p = p
  once_from_keeps env fans moment (some es) s p =
      let force = forcing Allowed safe in
      teardown_keeps k safe closes _ (
        (heartbeat_keeps k force).kept _
          (tick_fans_keeps k force env moment fans _ _ (seed_fans_keeps k fans es s p)))

-- No write, or a write of a 1, to a fan's mode or to `Ftst`.
abbrev pub IsForcingInput : SmcParamStruct → Type 0
IsForcingInput input =
    (input.data8 ≢ smc_cmd_write_key)
    ⊎ (((input.key ≡ fourcc ftst) ⊎ ((i : ℕ) × (input.key ≡ fourcc (fan_mode i))))
        × (get_or input.bytes 0 0 ≡ 1))

abbrev pub AreForcing : Trace → Type 0
AreForcing trace = All (λ (call : ℕ × SmcParamStruct). IsForcingInput call.1) trace

only_forcing :
    (key : WritableKey) (value : ℕ) (ki : KeyInfo)
    → IsForcing key value
    → IsForcingInput (record (writing (fourcc key) ki (value ∷ [])) { data8 = smc_cmd_write_key })
only_forcing (fan_mode i) value ki h = inr (inr (i, refl), h)
only_forcing (fan_target i) value ki h = absurd h
only_forcing ftst value ki h = inr (inl refl, h)

module _ {D : Type 0} (sys : Device D) where
  forcing_kept : IsKept (traced sys) IsForcingInput (λ c. AreForcing c.machine.0)
  forcing_kept = calls_kept IsForcingInput sys (λ input h. inl h)

  -- However many ticks the daemon runs, whatever its adapters decide and whatever the sensors, the
  -- clock, the configuration and the kernel give, every write that the kernel is asked for, from the
  -- reading of the first speeds on, is of a 1, to the mode of a fan or to `Ftst`: a fan that was
  -- forced to its minimum is not given back to `auto` by any later tick, also where its adapter
  -- decides for `auto`.
  pub execute_commit_forcing :
      (env : Option F32) (fans : List FanBinding) (moments : List Moment)
      (s : WriteSession (Trace × D))
      → AreForcing s.conn.machine.0
      → AreForcing (execute_commit (traced sys) env fans moments s).1.conn.machine.0
  unfolding execute_commit
  execute_commit_forcing env fans moments s p =
      run_from_keeps forcing_kept only_forcing env fans moments (envelopes_of (traced sys) fans s) s
        p

  -- With `--once` too, the teardown at the end included, every write is of a byte that is 0 or 1, to
  -- the mode of a fan or to `Ftst`.
  pub execute_once_safe :
      (env : Option F32) (fans : List FanBinding) (moment : Moment) (s : WriteSession (Trace × D))
      → AreSafeCalls s.conn.machine.0
      → AreSafeCalls (execute_once (traced sys) env fans moment s).conn.machine.0
  unfolding execute_once
  execute_once_safe env fans moment s p =
      once_from_keeps (safe_kept sys) (λ key value ki h. inr (key, value, h, refl, refl))
        (λ c q. subst AreSafeCalls (sym (close-trace sys c)) q) env fans moment
        (envelopes_of (traced sys) fans s) s p
