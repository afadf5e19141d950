-- ===== src/Smc/Session/Unlocking.antt =====
-- src/smc/write_session.rs: to begin and to release the diagnostic unlock, `Ftst` at 1.
use fand.Prelude.{ℕ, Bool, true, false, not, ◌==◌, Option, none, some, [], ◌∷◌, if◌then◌else◌}
use fand.Prelude.Text.{codes}
use fand.Smc.Error.{SmcError, key_not_found, smc_result, unlock_rejected, unlock_mismatch}
use fand.Smc.Keys.{ftst, fourcc}
use fand.Smc.RoundTrip.Record.{new_match}
use fand.Smc.Action.{Action, ◌>>=◌, ◌>>◌, ok, fail, ask, ignore, on_error}
use fand.Smc.Ffi.{Device}
use fand.Smc.Ffi.Read.{read_u8}
use fand.Smc.Ffi.Write.{write_u8}
use fand.Smc.Ffi.Verified.{write_u8_verified}
use fand.Smc.Unlock
use fand.Smc.Unlock.{DiagnosticUnlockSession, start_watchdog, stop_watchdog}
use fand.Smc.Session.{WriteSession, on_conn, on_writer, record_trip, set_unlock, clock}

-- The system on a chip has no `Ftst`.
unfoldable pub is_absent : SmcError → Bool
is_absent (key_not_found _) = true
is_absent e = false

-- What the refusal of `Ftst` becomes.
unfoldable pub rejected : ℕ → SmcError → SmcError
rejected session (smc_result cmd result_byte) = unlock_rejected result_byte session
rejected session e = e

module _ {D : Type 0} (sys : Device D) where
  -- The session with its heartbeat and its watchdog.
  unfoldable pub install : Action (WriteSession D) Unit
  install = do
    session ← ask (λ (s : WriteSession D). s.session_id)
    acquired ← clock sys
    now ← clock sys
    set_unlock (some (start_watchdog (Unlock.heartbeat (Unlock.new session acquired) now)))

  unfoldable pub write_ftst_failed : SmcError → Action (WriteSession D) Unit
  write_ftst_failed e =
      if is_absent e
      then install
      else ask (λ (s : WriteSession D). s.session_id) >>= λ session. fail (rejected session e)

  -- What was read back of `Ftst`.
  unfoldable pub check_ftst : ℕ → Action (WriteSession D) Unit
  check_ftst readback = do
    session ← ask (λ (s : WriteSession D). s.session_id)
    now ← clock sys
    if not (readback == 1)
        then fail (unlock_mismatch 1 readback session now)
        else record_trip (new_match now (fourcc ftst) (1 ∷ []) (1 ∷ [])) >> install

  unfoldable pub verify_ftst : Unit {0} → Action (WriteSession D) Unit
  verify_ftst _ = on_conn (read_u8 sys (fourcc ftst)) >>= check_ftst

  unfoldable pub begin_from : Option DiagnosticUnlockSession → Action (WriteSession D) Unit
  begin_from (some u) = ok tt
  begin_from none = on_error (on_conn (write_u8 sys ftst 1)) write_ftst_failed verify_ftst

  unfoldable pub begin_diagnostic_unlock : Action (WriteSession D) Unit
  begin_diagnostic_unlock = ask (λ (s : WriteSession D). s.unlock) >>= begin_from

  unfoldable pub release_from : Option DiagnosticUnlockSession → Action (WriteSession D) Unit
  release_from none = ok tt
  release_from (some u) = do
    set_unlock (some (stop_watchdog u))
    session ← ask (λ (s : WriteSession D). s.session_id)
    ignore (on_writer (write_u8_verified sys ftst 0 (codes "diagnostic_unlock_release") session))
    set_unlock none

  unfoldable pub release_diagnostic_unlock : Action (WriteSession D) Unit
  release_diagnostic_unlock = ask (λ (s : WriteSession D). s.unlock) >>= release_from
