-- ===== src/Control/Daemon.antt =====
-- src/control/loop.rs: the counters of the daemon, and its histogram of tick times.
-- The flags that it shares with other threads are references, of any type, that it only keeps.
pub mod Laws
use fand.Prelude.{ℕ, ◌+◌, Option, none, List, [], ◌∷◌, ltb, get_or, set, replicate, if◌then◌else◌}

pub record DaemonState (Flag : Type 0) : Type 0 where
  pub tick_count : ℕ
  pub tick_latency_us : List ℕ  -- 6 of them, u64
  pub total_panic_entries : ℕ
  pub total_sensor_dropouts : ℕ
  pub total_reclaim_events : ℕ
  pub last_reload_at : Option ℕ
  pub last_tick_completed_at : Flag
  pub shutdown : Flag
  pub reload : Flag
  pub sleep_pending : Flag
  pub wake_pending : Flag
  pub shutdown_count : Flag

unfoldable pub new : {Flag : Type 0} → Flag → Flag → Flag → Flag → Flag → Flag → DaemonState Flag
new last_tick shutdown reload sleep_pending wake_pending shutdown_count = record {
  tick_count = 0;
  tick_latency_us = replicate 6 0;
  total_panic_entries = 0;
  total_sensor_dropouts = 0;
  total_reclaim_events = 0;
  last_reload_at = none;
  last_tick_completed_at = last_tick;
  shutdown = shutdown;
  reload = reload;
  sleep_pending = sleep_pending;
  wake_pending = wake_pending;
  shutdown_count = shutdown_count;
}

-- The match on the time in microseconds.
unfoldable pub bucket_of : ℕ → ℕ
bucket_of us =
    if ltb us 100
    then 0
    else if ltb us 1000
    then 1
    else if ltb us 10000
    then 2
    else if ltb us 100000
    then 3
    else if ltb us 500000
    then 4
    else 5

abbrev pub saturating_suc_u64 : ℕ → ℕ
saturating_suc_u64 n = if ltb n 18446744073709551615 then n + 1 else 18446744073709551615

unfoldable pub record_latency : {Flag : Type 0} → DaemonState Flag → ℕ → DaemonState Flag
unfolding bucket_of
record_latency s us = record s {
  tick_latency_us =
      set s.tick_latency_us (bucket_of us)
        (saturating_suc_u64 (get_or s.tick_latency_us (bucket_of us) 0));
}
