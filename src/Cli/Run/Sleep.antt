-- ===== src/Cli/Run/Sleep.antt =====
-- The sleep between two ticks of src/cli/run.rs, in nanoseconds.
use fand.Prelude.{
  List, ℕ, ◌<◌, ◌≡◌, ◌≤◌, max, ◌+◌, arith, ◌+◌, ◌-◌, ◌*◌, ◌≤◌, Bool, max, ltb, if◌then◌else◌, arith,
}
use fand.Smc.Unlock.Watchdog.{Poll, watchdog_loop, raised}
use fand.Smc.Unlock.Watchdog.Laws.{AreQuiet, end_of, watchdog_loop_raises}

abbrev ten_ms : ℕ
ten_ms = 10000000

-- `checked_sub(..).unwrap_or(10 ms).max(10 ms)`.
unfoldable pub sleep_time : ℕ → ℕ → ℕ
sleep_time poll_interval tick_elapsed =
    max (if ltb poll_interval tick_elapsed then ten_ms else poll_interval - tick_elapsed) ten_ms

-- `tick_elapsed > poll_interval * 2`.
unfoldable pub is_wake : ℕ → ℕ → Bool
is_wake poll_interval tick_elapsed = ltb (poll_interval * 2) tick_elapsed

-- The sleep is never shorter than 10 ms, it fills the tick up to the interval, and it ends at most
-- 10 ms after the interval and the tick.
pub sleep_time_bounds :
    (poll elapsed : ℕ)
    → (10000000 ≤ sleep_time poll elapsed)
      × (poll ≤ elapsed + sleep_time poll elapsed)
      × (elapsed + sleep_time poll elapsed ≤ max poll elapsed + 10000000)
unfolding sleep_time
sleep_time_bounds poll elapsed = (ground arith, ground arith, ground arith)

-- With an interval 4.25 seconds or more above the time that the tick took, which a valid
-- configuration can have: after the heartbeat at the end of the tick, the watchdog that is polled
-- every 250 ms at the latest until the sleep ends raises SIGTERM before the sleep ends.
pub sleep_outlasts_watchdog :
    (poll elapsed last : ℕ) (ps : List Poll)
    → elapsed + 4250000000 ≤ poll
    → AreQuiet last 250000000 last ps
    → last + sleep_time poll elapsed ≤ end_of last ps + 250000000
    → (now : ℕ) × (watchdog_loop ps ≡ raised now) × (now < last + sleep_time poll elapsed)
sleep_outlasts_watchdog poll elapsed last ps long quiet covered =
    let (floor, fills, ends) = sleep_time_bounds poll elapsed in
    let (now, fired, low, high) =
      watchdog_loop_raises last 250000000 last ps quiet (omega arith) (omega arith) in
    (now, fired, omega arith)
