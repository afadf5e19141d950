-- ===== src/Smc/Session/Invariant.antt =====
-- src/smc/write_session.rs: what the methods of a session keep of its connection, when the calls of
-- the kernel keep it, the only writes being a byte that is 0 or 1 to a fan's mode or to `Ftst`.
pub mod Safety
use fand.Prelude.{
  if_both, refl, ℕ, ◌≤◌, Bool, true, false, Option, none, some, List, [], ◌∷◌, ◌⊎◌, inl, inr, arith,
}
use fand.Prelude.Text.{Text, codes}
use fand.F32.{F32}
use fand.Control.Clamp.{ClampedRpm, as_f32}
use fand.Smc.Error.{SmcError, Fan}
use fand.Smc.Keys.{WritableKey, fan_mode, fan_target, ftst, fourcc, fan_key_fourcc}
use fand.Smc.RoundTrip.{push}
use fand.Smc.RoundTrip.Record.{RoundTripRecord}
use fand.Smc.Action.{Action, ◌>>=◌, ◌>>◌, ok, fail, ask, modify, ignore, on_error}
use fand.Smc.Action.Invariant.{
  Keeps, ok_keeps, fail_keeps, ask_keeps, ignore_keeps, if_keeps, modify_keeps, on_error_keeps,
  bind_keeps, then_keeps,
}
use fand.Smc.Ffi.{SmcParamStruct, Device, SmcConnection, wall_clock_ns, close}
use fand.Smc.Ffi.Read.{KeyInfo, read_u8, read_f32}
use fand.Smc.Ffi.Write.{
  smc_cmd_write_key, writing, write_u8, force_write_auto_mode, force_write_ftst_zero,
}
use fand.Smc.Ffi.Verified
use fand.Smc.Ffi.Verified.{
  Writer, on_connection, compare_u8, read_back, write_u8_at, write_u8_verified,
}
use fand.Smc.Ffi.Invariant.{IsKept, read_u8_keeps, read_f32_keeps, write_u8_keeps}
use fand.Smc.Unlock.{DiagnosticUnlockSession}
use fand.Smc.Session.{
  WriteSession, on_conn, on_writer, record_trip, set_unlock, clock, read_actual_rpm, rearm,
  heartbeat,
}
use fand.Smc.Session.Unlocking.{
  is_absent, install, write_ftst_failed, check_ftst, verify_ftst, begin_from,
  begin_diagnostic_unlock, release_from, release_diagnostic_unlock,
}
use fand.Smc.Session.Commit.{
  is_minimum_request, refuse_target, force_minimum, commit_request, commit_found, commit_set_fan,
}
use fand.Smc.Session.Teardown.{release_fans, checklist, teardown}
use fand.Smc.Session.Writes.{
  IsSafe, IsForcing, forcing, OfConn, on_conn_keeps, on_writer_keeps, write_u8_verified_keeps,
}

module _ {D : Type 0} {sys : Device D} {Allowed : SmcParamStruct → Type 0}
    {P : SmcConnection D → Type 0} (k : IsKept sys Allowed P)
    (safe : (key : WritableKey) (value : ℕ) (ki : KeyInfo)
      → IsForcing key value
      → Allowed (record (writing (fourcc key) ki (value ∷ [])) { data8 = smc_cmd_write_key })) where
  clock_keeps : Keeps (OfConn P) (clock sys)
  unfolding clock
  clock_keeps = on_conn_keeps k.clock

  set_unlock_keeps : (u : Option DiagnosticUnlockSession) → Keeps (OfConn P) (set_unlock u)
  unfolding set_unlock OfConn
  set_unlock_keeps u = modify_keeps _ (λ s p. p)

  record_trip_keeps : (trip : RoundTripRecord) → Keeps (OfConn P) (record_trip trip)
  unfolding record_trip OfConn
  record_trip_keeps trip = modify_keeps _ (λ s p. p)

  rearm_keeps : (u : Option DiagnosticUnlockSession) → Keeps (OfConn P) (rearm sys u)
  unfolding rearm
  rearm_keeps none = ok_keeps _
  rearm_keeps (some u) = bind_keeps clock_keeps (λ now. set_unlock_keeps _)

  pub heartbeat_keeps : Keeps (OfConn P) (heartbeat sys)
  unfolding heartbeat
  heartbeat_keeps = bind_keeps (ask_keeps _) rearm_keeps

  install_keeps : Keeps (OfConn P) (install sys)
  unfolding install
  install_keeps = bind_keeps (ask_keeps _) (λ session.
      bind_keeps clock_keeps (λ acquired. bind_keeps clock_keeps (λ now. set_unlock_keeps _)))

  write_ftst_failed_keeps : (e : SmcError) → Keeps (OfConn P) (write_ftst_failed sys e)
  unfolding write_ftst_failed
  write_ftst_failed_keeps e =
      if_keeps _ install_keeps (bind_keeps (ask_keeps _) (λ session. fail_keeps _))

  check_ftst_keeps : (readback : ℕ) → Keeps (OfConn P) (check_ftst sys readback)
  unfolding check_ftst
  check_ftst_keeps readback = bind_keeps (ask_keeps _) (λ session.
      bind_keeps clock_keeps
        (λ now. if_keeps _ (fail_keeps _) (then_keeps (record_trip_keeps _) install_keeps)))

  begin_from_keeps : (u : Option DiagnosticUnlockSession) → Keeps (OfConn P) (begin_from sys u)
  unfolding begin_from verify_ftst
  begin_from_keeps (some u) = ok_keeps _
  begin_from_keeps none =
      on_error_keeps (on_conn_keeps (write_u8_keeps k ftst 1 (λ ki. safe ftst 1 ki refl)))
        write_ftst_failed_keeps
        (λ _. bind_keeps (on_conn_keeps (read_u8_keeps k _)) check_ftst_keeps)

  pub begin_diagnostic_unlock_keeps : Keeps (OfConn P) (begin_diagnostic_unlock sys)
  unfolding begin_diagnostic_unlock
  begin_diagnostic_unlock_keeps = bind_keeps (ask_keeps _) begin_from_keeps

  refuse_target_keeps : (i : ℕ) → Keeps (OfConn P) (refuse_target sys i)
  unfolding refuse_target
  refuse_target_keeps i =
      bind_keeps (ask_keeps _) (λ session. bind_keeps clock_keeps (λ now. fail_keeps _))

  force_minimum_keeps : (i : ℕ) → Keeps (OfConn P) (force_minimum sys i)
  unfolding force_minimum
  force_minimum_keeps i = bind_keeps (ask_keeps _) (λ session.
      then_keeps (on_writer_keeps P (write_u8_verified_keeps k safe (fan_mode i) 1 _ session refl))
        heartbeat_keeps)

  commit_found_keeps :
      (i : ℕ) (target : F32) (found : Option Fan)
      → Keeps (OfConn P) (commit_found sys i target found)
  unfolding commit_found commit_request read_actual_rpm
  commit_found_keeps i target none = fail_keeps _
  commit_found_keeps i target (some fan) =
      then_keeps
        (then_keeps begin_diagnostic_unlock_keeps
          (ignore_keeps (on_conn_keeps (read_f32_keeps k _))))
        (if_keeps (is_minimum_request fan target) (force_minimum_keeps i) (refuse_target_keeps i))

  pub commit_set_fan_keeps :
      (i : ℕ) (target : ClampedRpm) → Keeps (OfConn P) (commit_set_fan sys i target)
  unfolding commit_set_fan
  commit_set_fan_keeps i target = bind_keeps (ask_keeps _) (commit_found_keeps i _)

module _ {D : Type 0} {sys : Device D} {Allowed : SmcParamStruct → Type 0}
    {P : SmcConnection D → Type 0} (k : IsKept sys Allowed P)
    (safe : (key : WritableKey) (value : ℕ) (ki : KeyInfo)
      → IsSafe key value
      → Allowed (record (writing (fourcc key) ki (value ∷ [])) { data8 = smc_cmd_write_key })) where
  release_from_keeps : (u : Option DiagnosticUnlockSession) → Keeps (OfConn P) (release_from sys u)
  unfolding release_from
  release_from_keeps none = ok_keeps _
  release_from_keeps (some u) = then_keeps (set_unlock_keeps k (forcing Allowed safe) _) (
      bind_keeps (ask_keeps _) (λ session.
        then_keeps
          (ignore_keeps
            (on_writer_keeps P (write_u8_verified_keeps k safe ftst 0 _ session (omega arith))))
          (set_unlock_keeps k (forcing Allowed safe) _)))

  pub release_diagnostic_unlock_keeps : Keeps (OfConn P) (release_diagnostic_unlock sys)
  unfolding release_diagnostic_unlock
  release_diagnostic_unlock_keeps = bind_keeps (ask_keeps _) release_from_keeps

  pub release_fans_keeps : (fans : List ℕ) → Keeps (OfConn P) (release_fans sys fans)
  unfolding release_fans force_write_auto_mode
  release_fans_keeps [] = ok_keeps _
  release_fans_keeps (i ∷ is) =
      then_keeps
        (ignore_keeps (
          on_conn_keeps
            (write_u8_keeps k (fan_mode i) 0 (λ ki. safe (fan_mode i) 0 ki (omega arith)))))
        (release_fans_keeps is)

  module _ (closes : (c : SmcConnection D) → P c → P (close sys c)) where
    checklist_keeps : Keeps (OfConn P) (checklist sys)
    unfolding checklist force_write_ftst_zero OfConn
    checklist_keeps = bind_keeps (ask_keeps _) (λ fans. then_keeps (release_fans_keeps fans) (
        then_keeps release_diagnostic_unlock_keeps (
          then_keeps
            (ignore_keeps
              (on_conn_keeps (write_u8_keeps k ftst 0 (λ ki. safe ftst 0 ki (omega arith)))))
            (modify_keeps _ (λ s p. closes s.conn p)))))

    pub teardown_keeps : (s : WriteSession D) → P s.conn → P (teardown sys s).conn
    unfolding teardown OfConn
    teardown_keeps s p =
        if_both (λ (r : WriteSession D). P r.conn) s.tear_down_once p
          (checklist_keeps.kept (record s { tear_down_once = true }) p)
