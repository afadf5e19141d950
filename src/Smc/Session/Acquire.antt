-- ===== src/Smc/Session/Acquire.antt =====
-- `acquire` of src/smc/write_session.rs, and how the errors of its lock are passed on. The results of
-- `FlockGuard::try_acquire` and of the three `SmcConnection::open` are arguments, and so is the text
-- that an error of the lock is shown with. The masks of the threads are left out.
pub mod Laws
use fand.Prelude.{ℕ, Bool, true, false, Option, none, some, List, ◌⊎◌, inl, inr, map}
use fand.Prelude.Int.{ℤ, pos}
use fand.Prelude.Text.{Text}
use fand.Smc.Error.{SmcError, conflict_detected, service_not_found, Fan}
use fand.Smc.RoundTrip
use fand.Smc.Ffi.{Device, SmcConnection}
use fand.Smc.Enumerate.{enumerate_fans}
use fand.Smc.PanicHook.{PanicHook, seal_for_panic}
use fand.Smc.Signal.{SignalThread}
use fand.Smc.SingleInstance.{
  FlockError, FlockGuard, permission_denied, already_held, symlink_rejected, unreliable_filesystem,
  create_failed, canonicalization_failed, write_failed,
}
use fand.Smc.Session.{WriteSession}

abbrev pub pid_or_zero : Option ℤ → ℤ
pid_or_zero none = pos 0
pid_or_zero (some pid) = pid

unfoldable pub flock_error_to_smc_error : (FlockError → Text) → FlockError → SmcError
flock_error_to_smc_error text (already_held holder_pid) =
    conflict_detected (pid_or_zero holder_pid) (text (already_held holder_pid))
flock_error_to_smc_error text (create_failed permission_denied) = service_not_found
flock_error_to_smc_error text e = conflict_detected (pos 0) (text e)

-- What the process holds with the session: the guard, the sealed hook, and the signal thread.
pub record Acquired (D : Type 0) : Type 0 where
  pub session : WriteSession D
  pub lock_guard : FlockGuard
  pub hook : PanicHook D
  pub signal_thread : SignalThread D

module _ {D : Type 0} (sys : Device D) (text : FlockError → Text) (session_id : ℕ) where
  -- Steps 5 to 8.
  unfoldable pub wired :
      PanicHook D
      → FlockGuard
      → SmcConnection D
      → SmcConnection D
      → SmcConnection D
      → List Fan
      → Acquired D
  wired hook guard main_conn teardown_conn panic_conn fan_envelopes =
      let fan_indices = map (λ (f : Fan). f.index) fan_envelopes in
      record {
        session = record {
          conn = main_conn;
          fans = fan_indices;
          fan_envelopes = fan_envelopes;
          round_trips = RoundTrip.new session_id;
          unlock = none;
          tear_down_once = false;
          signal_thread = true;
          session_id = session_id;
        };
        lock_guard = guard;
        hook = seal_for_panic panic_conn fan_indices hook;
        signal_thread = record {
          teardown_conn = teardown_conn;
          state = record {
            release_in_progress = false;
            fans = fan_indices;
            reload_requested = false;
          };
          exited = none;
        };
      }

  -- Step 4, on what the enumeration gives.
  unfoldable pub enumerated :
      PanicHook D
      → FlockGuard
      → SmcConnection D
      → SmcConnection D
      → (SmcError ⊎ List Fan) × SmcConnection D
      → SmcError ⊎ Acquired D
  enumerated hook guard teardown_conn panic_conn (inl e, main_conn) = inl e
  enumerated hook guard teardown_conn panic_conn (inr fans, main_conn) =
      inr (wired hook guard main_conn teardown_conn panic_conn fans)

  -- Steps 2 and 3; the first error ends it.
  unfoldable pub acquire :
      PanicHook D
      → FlockError ⊎ FlockGuard
      → SmcError ⊎ SmcConnection D
      → SmcError ⊎ SmcConnection D
      → SmcError ⊎ SmcConnection D
      → SmcError ⊎ Acquired D
  acquire hook (inl e) first second third = inl (flock_error_to_smc_error text e)
  acquire hook (inr guard) (inl e) second third = inl e
  acquire hook (inr guard) (inr main_conn) (inl e) third = inl e
  acquire hook (inr guard) (inr main_conn) (inr teardown_conn) (inl e) = inl e
  acquire hook (inr guard) (inr main_conn) (inr teardown_conn) (inr panic_conn) =
      enumerated hook guard teardown_conn panic_conn (enumerate_fans sys main_conn)
