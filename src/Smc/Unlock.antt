-- ===== src/Smc/Unlock.antt =====
-- src/smc/unlock.rs: the session in which the SMC takes writes, and its watchdog.
-- Times are nanoseconds of the wall clock. The flag of the teardown is shared: it is an argument.
pub mod Watchdog
use fand.Prelude.{ℕ, ◌-◌, ◌/◌, Bool, true, false, leb, if◌then◌else◌}

abbrev pub watchdog_deadline_ms : ℕ
watchdog_deadline_ms = 4000

abbrev pub watchdog_poll_interval_ms : ℕ
watchdog_poll_interval_ms = 250

pub record DiagnosticUnlockSession : Type 0 where
  pub session_id : ℕ
  pub last_heartbeat_ns : ℕ
  pub released : Bool
  pub watchdog_thread : Bool  -- whether there is one
  pub watchdog_stop : Bool

unfoldable pub new : ℕ → ℕ → DiagnosticUnlockSession
new session_id now = record {
  session_id = session_id;
  last_heartbeat_ns = now;
  released = false;
  watchdog_thread = false;
  watchdog_stop = false;
}

unfoldable pub start_watchdog : DiagnosticUnlockSession → DiagnosticUnlockSession
start_watchdog u = if u.watchdog_thread then u else record u { watchdog_thread = true }

unfoldable pub stop_watchdog : DiagnosticUnlockSession → DiagnosticUnlockSession
stop_watchdog u = record u { watchdog_stop = true; watchdog_thread = false }

unfoldable pub heartbeat : DiagnosticUnlockSession → ℕ → DiagnosticUnlockSession
heartbeat u now = record u { last_heartbeat_ns = now }

unfoldable pub ms_since : ℕ → ℕ → ℕ
ms_since last now = (now - last) / 1000000

unfoldable pub ms_since_last_heartbeat : DiagnosticUnlockSession → ℕ → ℕ
unfolding ms_since
ms_since_last_heartbeat u now = ms_since u.last_heartbeat_ns now

unfoldable pub watchdog_fired : DiagnosticUnlockSession → ℕ → Bool
unfolding ms_since_last_heartbeat
watchdog_fired u now = leb watchdog_deadline_ms (ms_since_last_heartbeat u now)

-- Whether this caller won, the session, and the shared flag after it.
unfoldable pub try_begin_release :
    DiagnosticUnlockSession → Bool → Bool × DiagnosticUnlockSession × Bool
try_begin_release u release_in_progress =
    if u.released
    then (false, u, release_in_progress)
    else if release_in_progress
    then (false, u, true)
    else (true, record u { released = true }, true)
