-- ===== src/Smc/Ffi/Tests.antt =====
-- A connection on the concrete machine, and its watchdog.
use fand.Prelude.{◌≤◌, ◌<◌, ◌⊎◌, arith, ℕ, false, [], ◌∷◌, inr, refl, ◌≡◌}
use fand.Prelude.Text.{codes}
use fand.Smc.Error.{SmcError}
use fand.Smc.Value.{from_be_bytes}
use fand.Smc.Keys.{fan_mode, fourcc, fan_key_fourcc, data_type}
use fand.Smc.RoundTrip
use fand.Smc.RoundTrip.Record
use fand.Smc.Cache
use fand.Smc.Ffi.{SmcParamStruct, zeroed}
use fand.Smc.Value.{decode_ui8}
use fand.Smc.Action.{continue, ◌>>=◌, ◌>>◌, ok, fail, ask, modify, fail_if, branch, on_error}
use fand.Smc.Ffi.{call_struct, call_loop, judge, wall_clock_ns}
use fand.Smc.Ffi.Read.{
  is_missing, invalidate, not_found, stored, read_key_info_or, read_key_info, read_sized, read_key,
  as_u8, read_u8, read_f32, expect_type, decoded,
}
use fand.Smc.Ffi.Write.{write_sized, write_key, write_u8}
use fand.Smc.Ffi.Verified
use fand.Smc.Ffi.Verified.{
  refused, on_connection, compare_u8, read_back, write_u8_at, write_u8_verified,
}
use fand.Smc.Simulated.{Memory, machine, session, sensor}
use fand.Smc.Ffi.Verified.{Writer}
use fand.Smc.Ffi.Verified.Laws.{write_u8_verified-inr}
use fand.Smc.Unlock.Watchdog.{Poll, raised, watchdog_loop}
use fand.Smc.Unlock.Watchdog.Laws.{watchdog_loop_raises}

abbrev asking_sensor : SmcParamStruct
asking_sensor = record zeroed { key = sensor }

abbrev writer : Writer Memory
writer = (session.conn, session.round_trips)

abbrev verified : (SmcError ⊎ Unit {0}) × Writer Memory
verified = write_u8_verified machine (fan_mode 0) 1 (codes "test") 1 writer

verifies : verified.0 ≡ inr tt
unfolding read_f32 read_key read_sized read_key_info read_key_info_or stored is_missing not_found
    invalidate call_struct call_loop judge ◌>>=◌ ◌>>◌ continue branch on_error ok fail ask modify
    fail_if Cache.get Cache.put Cache.new Cache.invalidate write_u8 data_type write_key fourcc
    fan_key_fourcc from_be_bytes write_sized read_u8 as_u8 expect_type decoded decode_ui8
    wall_clock_ns compare_u8 on_connection read_back Verified.record_trip refused write_u8_at
    write_u8_verified Record.new Record.new_match RoundTrip.push RoundTrip.new
verifies = refl

write_u8_verified-inr_example :
    ((write_u8 machine (fan_mode 0) 1 (wall_clock_ns machine session.conn).1).0 ≡ inr tt)
    × (read_u8 machine
          (fourcc (fan_mode 0))
          (write_u8 machine (fan_mode 0) 1 (wall_clock_ns machine session.conn).1).1
        ≡ (inr 1, verified.1.0))
write_u8_verified-inr_example =
    write_u8_verified-inr machine (fan_mode 0) 1 (codes "test") 1 writer verifies

-- A heartbeat at 0, and polls at 3.9 and at 4.1 seconds.
abbrev poll_at : ℕ → Poll
poll_at now = record { stop = false; release_in_progress = false; now = now; last_heartbeat = 0 }

watchdog_loop_raises_example :
    (now : ℕ) × (watchdog_loop (poll_at 3900000000 ∷ poll_at 4100000000 ∷ []) ≡ raised now)
    × (4000000000 ≤ now)
    × (now < 4250000000)
watchdog_loop_raises_example =
    watchdog_loop_raises 0 250000000 3700000000 (poll_at 3900000000 ∷ poll_at 4100000000 ∷ [])
      ((refl, refl, refl, omega arith), ((refl, refl, refl, omega arith), tt)) (omega arith)
      (omega arith)
