-- ===== src/Smc/Session/Tests.antt =====
-- A session on a concrete machine with one fan, and the theorems at work on it.
use fand.Prelude.{get_elem?, arith, true, false, none, some, List, [], ◌∷◌, inr, refl, ◌≡◌}
use fand.F32.{F32, of_ℕ}
use fand.Control.Clamp.{ClampedRpm}
use fand.Smc.Error.{Fan}
use fand.Smc.Value.{from_be_bytes}
use fand.Smc.Keys.{fourcc, fan_key_fourcc, data_type, type_ui8}
use fand.Smc.RoundTrip
use fand.Smc.RoundTrip.Record
use fand.F32
use fand.F32.Rounding.{nearest, round_from, round_mag}
use fand.Control.Clamp
use fand.Prelude.Int.{◌*ℤ◌, ◌+ℤ◌}
use fand.Smc.Unlock
use fand.Smc.Unlock.{start_watchdog}
use fand.Smc.Session.Unlocking.{is_absent, rejected}
use fand.Smc.Cache
use fand.Smc.Ffi.Laws.{Trace, traced}
use fand.Smc.Cache.Laws
use fand.Smc.Session.Invariant.Safety.{
  Method, calls_read_f32, calls_run_selftest, calls_commit_set_fan, calls_heartbeat, calls_teardown,
  perform_all, AreSafeCalls, perform_all_safe, perform_all_silent,
}
use fand.Smc.Session.Teardown.{release_fans, teardown}
use fand.Smc.Session.Teardown.Laws.{release_fans_after_read, teardown_ends}
use fand.Smc.Session.Teardown.Releases.{IsReady, AreReleased, teardown_releases}
use fand.Smc.Session.Commit.Laws.{IsHeld, commit_set_fan-inr}
use fand.Smc.Session.{
  WriteSession, on_conn, on_writer, record_trip, set_unlock, clock, read_actual_rpm, rearm,
  heartbeat,
}
use fand.Smc.Value.{decode_flt, decode_ui8, f32_from_bits, from_le_bytes, magnitude}
use fand.Smc.Action.{
  continue, ◌>>=◌, ◌>>◌, ok, fail, ask, modify, fail_if, ignore, branch, on_error,
}
use fand.Smc.Ffi.{call_struct, call_loop, judge, wall_clock_ns}
use fand.Smc.Ffi.Read.{
  is_missing, invalidate, not_found, stored, read_key_info_or, read_key_info, read_sized, read_key,
  as_u8, as_f32, read_u8, read_f32, expect_type, decoded, decoded_flt,
}
use fand.Smc.Ffi.Write.{write_sized, write_key, write_u8}
use fand.Smc.Ffi.Verified
use fand.Smc.Ffi.Verified.{
  refused, on_connection, compare_u8, read_back, write_u8_at, write_u8_verified,
}
use fand.Smc.Session.Unlocking.{
  install, write_ftst_failed, check_ftst, verify_ftst, begin_from, begin_diagnostic_unlock,
}
use fand.Smc.Session.Commit.{
  is_minimum_request, refuse_target, force_minimum, commit_request, commit_found, commit_set_fan,
}
use fand.Smc.Simulated.{Memory, mode_0, machine, fan_0, session, traced_session, minimum, sensor}

-- The kernel is asked for the size and for the value of a key.
session_reads : (on_conn (read_f32 machine sensor) session).0 ≡ inr (of_ℕ 65)
unfolding on_conn read_f32 read_key read_sized read_key_info read_key_info_or as_f32 expect_type
    decoded_flt stored is_missing not_found invalidate call_struct call_loop judge decode_flt
    f32_from_bits from_le_bytes magnitude ◌>>=◌ ◌>>◌ continue branch on_error ok fail ask modify
    fail_if Cache.get Cache.put Cache.new Cache.invalidate of_ℕ F32.quot round_mag round_from
    nearest
session_reads = refl

within_span : is_minimum_request fan_0 (Clamp.as_f32 minimum) ≡ true
unfolding is_minimum_request F32.sub F32.mul F32.add F32.ratio Clamp.as_f32 ◌*ℤ◌ ◌+ℤ◌ of_ℕ F32.quot
    round_mag round_from nearest
within_span = refl

commits : (commit_set_fan machine 0 minimum session).0 ≡ inr tt
unfolding read_f32 read_key read_sized read_key_info read_key_info_or as_f32 expect_type decoded_flt
    stored is_missing not_found invalidate call_struct call_loop judge decode_flt f32_from_bits
    from_le_bytes magnitude ◌>>=◌ ◌>>◌ continue branch on_error ok fail ask modify fail_if Cache.get
    Cache.put Cache.new Cache.invalidate of_ℕ F32.quot round_mag round_from nearest commit_set_fan
    commit_found commit_request force_minimum refuse_target is_minimum_request ignore
    begin_diagnostic_unlock begin_from verify_ftst check_ftst install read_actual_rpm on_conn
    on_writer write_u8 data_type write_key fourcc fan_key_fourcc from_be_bytes write_sized read_u8
    as_u8 decoded decode_ui8 clock wall_clock_ns record_trip set_unlock F32.sub F32.mul F32.add
    F32.ratio Clamp.as_f32 ◌*ℤ◌ ◌+ℤ◌ compare_u8 on_connection read_back Verified.record_trip refused
    write_u8_at write_u8_verified Record.new Record.new_match RoundTrip.push RoundTrip.new is_absent
    rejected write_ftst_failed heartbeat rearm Unlock.heartbeat Unlock.new start_watchdog
commits = refl

-- A session that is asked for a sensor, a commit and a teardown.
abbrev run_of_methods : List Method
run_of_methods =
    calls_read_f32 sensor
    ∷ calls_run_selftest 1 0
    ∷ calls_commit_set_fan 0 minimum
    ∷ calls_heartbeat
    ∷ calls_teardown
    ∷ []

perform_all_safe_example :
    AreSafeCalls (perform_all (traced machine) run_of_methods traced_session).conn.machine.0
perform_all_safe_example = perform_all_safe machine run_of_methods traced_session tt

perform_all_silent_example :
    let after = teardown (traced machine) traced_session in
    ((perform_all (traced machine) run_of_methods after).conn.machine.0 ≡ after.conn.machine.0)
    × ((perform_all (traced machine) run_of_methods after).conn.connection_open ≡ false)
perform_all_silent_example = perform_all_silent machine run_of_methods traced_session refl

-- A session whose cache knows the mode of fan 0, as it is after a commit.
abbrev known_session : WriteSession (Trace × Memory)
known_session = record traced_session {
  conn = record traced_session.conn { cache = Cache.put Cache.new mode_0 1 type_ui8 };
}

known-IsReady : IsReady known_session.conn
unfolding Cache.get Cache.put Cache.new fourcc fan_key_fourcc from_be_bytes
known-IsReady = record { is_open = refl; has_port = refl; slot_type = type_ui8; slot = refl }

teardown_releases_example :
    AreReleased machine known_session.fans (teardown (traced machine) known_session).conn
teardown_releases_example = teardown_releases machine known_session refl known-IsReady

release_fans_after_read_example :
    release_fans machine (0 ∷ 1 ∷ []) (on_conn (read_f32 machine sensor) session).1
    ≡ (inr tt, (on_conn (read_f32 machine sensor) session).1)
release_fans_after_read_example =
    release_fans_after_read machine sensor (0 ∷ 1 ∷ []) session (of_ℕ 65) Cache.Laws.new-IsValid
      (omega arith) session_reads

teardown_ends_example :
    ((teardown machine session).conn.connection_open ≡ false)
    × ((teardown machine session).unlock ≡ none)
    × ((teardown machine session).tear_down_once ≡ true)
    × (teardown machine (teardown machine session) ≡ teardown machine session)
teardown_ends_example = teardown_ends machine session refl

commit_set_fan-inr_example :
    (fan : Fan) × (get_elem? session.fan_envelopes 0 ≡ some fan)
    × (F32.le
          (F32.abs (F32.sub (Clamp.as_f32 minimum) fan.min_rpm))
          (F32.mul (F32.sub fan.max_rpm fan.min_rpm) (F32.ratio 5 100))
        ≡ true)
    × ((begin_diagnostic_unlock machine session).0 ≡ inr tt)
    × IsHeld machine 0
        (wall_clock_ns machine
          ((begin_diagnostic_unlock machine >> ignore (read_actual_rpm machine 0))
            session).1.conn).1
commit_set_fan-inr_example = commit_set_fan-inr machine 0 minimum session commits
