-- ===== src/Smc/Unlock/Watchdog.antt =====
-- `watchdog_loop` of src/smc/unlock.rs: the thread that looks at the heartbeat at every poll.
pub mod Laws
use fand.Prelude.{ℕ, Bool, Option, none, some, List, [], ◌∷◌, leb, if◌then◌else◌}
use fand.Smc.Unlock.{watchdog_deadline_ms, ms_since}

-- What the thread reads when a sleep of `watchdog_poll_interval_ms` ends.
pub record Poll : Type 0 where
  pub stop : Bool
  pub release_in_progress : Bool
  pub now : ℕ
  pub last_heartbeat : ℕ

pub data Watch : Type 0 where
  waiting stopped : Watch
  raised : (now : ℕ) → Watch  -- SIGTERM

-- The loop over the polls in their order.
unfoldable pub watchdog_loop : List Poll → Watch
watchdog_loop [] = waiting
watchdog_loop (p ∷ ps) =
    let rest = watchdog_loop ps in
    if p.stop
    then stopped
    else if p.release_in_progress
    then stopped
    else if leb watchdog_deadline_ms (ms_since p.last_heartbeat p.now)
    then raised p.now
    else rest
