-- ===== src/Cli/Run/Tests.antt =====
-- Ticks of a fan on the concrete machine.
use fand.Prelude.{List, ℕ, zero, suc, ◌+◌, ◌<◌, arith, false, ◌≡◌, refl, none, [], ◌∷◌}
use fand.Prelude.Text.{codes}
use fand.F32.{F32, of_ℕ, ratio}
use fand.Config.Schema.{FanBinding, SensorRef, default_fan}
use fand.Control.Adapter
use fand.Control.Loop
use fand.Smc.Ffi.Laws.{traced}
use fand.Smc.Simulated.{machine, traced_session}
use fand.F32
use fand.F32.Rounding.{nearest, round_from, round_mag}
use fand.Prelude.Int.{◌*ℤ◌, ◌+ℤ◌}
use fand.Prelude.Text.{same_text}
use fand.Control.Fusion.{fuse, valid}
use fand.Control.Ema.{smooth}
use fand.Control.Curve.{evaluate}
use fand.Control.Hysteresis
use fand.Control.Slew.{limit}
use fand.Control.Panic
use fand.Control.Clamp
use fand.Control.Loop.{tick}
use fand.Control.Adapter.{decide}
use fand.Smc.Cache
use fand.Smc.Session.{on_conn}
use fand.Smc.Value.{decode_flt, f32_from_bits, from_le_bytes, from_be_bytes, magnitude}
use fand.Smc.Action.{continue, ◌>>=◌, ◌>>◌, ok, fail, ask, modify, fail_if, branch, on_error}
use fand.Smc.Ffi.{call_struct, call_loop, judge}
use fand.Smc.Ffi.Read.{
  is_missing, invalidate, not_found, stored, read_key_info_or, read_key_info, read_sized, read_key,
  as_f32, read_f32, expect_type, decoded_flt,
}
use fand.Cli.Run.{is_dropout, settings_of, read_sensor, read_sensors, regulate}
use fand.Cli.Run.{Regulator, Moment, tick_fan, execute_commit}
use fand.Smc.Unlock.Watchdog.{Poll, raised, watchdog_loop}
use fand.Smc.Unlock.Watchdog.Laws.{AreQuiet}
use fand.Cli.Run.Sleep.{sleep_time, sleep_outlasts_watchdog}
use fand.Cli.Run.Laws.{AreForcing, execute_commit_forcing}

-- "Tp0d" reads 65 degrees; the curve asks for 6000 at that.
abbrev fan : FanBinding
fan = default_fan 0 (SensorRef.smc (codes "Tp0d") ∷ []) ((of_ℕ 60, 6000) ∷ [])

abbrev forced : Regulator
forced = record {
  fan_state = Loop.new 0 (of_ℕ 2317) (of_ℕ 6550) (of_ℕ 2317) (of_ℕ 40);
  adapter = record { current = Adapter.forced_minimum };
}

abbrev moment : Moment
moment = record {
  tick_start = 1000;
  elapsed_secs = λ i. ratio 1 10;
  poll_interval = 500000000;
  tick_elapsed = 100000000;
}

releases :
    (tick_fan (traced machine) none moment fan forced traced_session).0.adapter.current
    ≡ Adapter.auto
unfolding tick_fan regulate read_sensors read_sensor is_dropout settings_of default_fan on_conn
    read_f32 read_key read_sized read_key_info read_key_info_or as_f32 expect_type decoded_flt
    stored is_missing not_found invalidate call_struct call_loop judge decode_flt f32_from_bits
    from_le_bytes from_be_bytes magnitude ◌>>=◌ ◌>>◌ continue branch on_error ok fail ask modify
    fail_if Cache.get Cache.put Cache.new Cache.invalidate Loop.new tick Loop.sense Loop.is_blind
    Loop.shape Loop.finish Loop.any_valid Loop.request fuse valid smooth evaluate Hysteresis.apply
    Hysteresis.new limit Panic.check Panic.new Clamp.new decide same_text F32.max F32.min F32.add
    F32.sub F32.mul F32.ratio F32.round F32.as_u32 of_ℕ F32.quot round_mag round_from nearest ◌*ℤ◌
    ◌+ℤ◌
releases = refl

execute_commit_forcing_example :
    AreForcing
      (execute_commit
        (traced machine)
        none
        (fan ∷ [])
        (moment ∷ moment ∷ [])
        traced_session).1.conn.machine.0
execute_commit_forcing_example =
    execute_commit_forcing machine none (fan ∷ []) (moment ∷ moment ∷ []) traced_session tt

-- Polls every 250 ms after a heartbeat at 0.
abbrev polls_from : ℕ → ℕ → List Poll
polls_from zero before = []
polls_from (suc n) before =
    record {
      stop = false;
      release_in_progress = false;
      now = before + 250000000;
      last_heartbeat = 0;
    }
    ∷ polls_from n (before + 250000000)

quiet_from : (n before : ℕ) → AreQuiet 0 250000000 before (polls_from n before)
quiet_from zero before = tt
quiet_from (suc n) before = ((refl, refl, refl, omega arith), quiet_from n (before + 250000000))

-- An interval of 5 seconds and a tick of 0.1 seconds.
sleep_outlasts_watchdog_example :
    (now : ℕ) × (watchdog_loop (polls_from 19 0) ≡ raised now)
    × (now < sleep_time 5000000000 100000000)
unfolding sleep_time
sleep_outlasts_watchdog_example =
    sleep_outlasts_watchdog 5000000000 100000000 0 (polls_from 19 0) (omega arith) (quiet_from 19 0)
      (omega arith)
