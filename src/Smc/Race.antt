-- ===== src/Smc/Race.antt =====
-- The race for the flag `tear_down_once`, which is the `release_in_progress` of the signal thread:
-- `teardown` of src/smc/write_session.rs on the main thread and `teardown_and_exit` of
-- src/smc/signal.rs on the thread of the signals, one swap of the flag or one write to a fan at a
-- time. A write counts as a release of its fan, whatever the kernel answers. The end of the process
-- once the main thread is back, and the writes that follow those to the fans, are left out.
pub mod Laws
mod Tests
use fand.Prelude.{ℕ, Bool, true, false, Option, none, some, List, [], ◌∷◌, ◌++◌}

-- Where a thread is: before its swap, with the fans that it has yet to release, behind the last one,
-- or back after a swap that it lost.
pub data Phase : Type 0 where
  idle finished aside : Phase
  releasing : (todo : List ℕ) → Phase

-- The flag, the two threads, the exit code once the process has ended, and the fans that were
-- released, in their order.
pub data Process : Type 0 where
  state : (flag : Bool) (main thread : Phase) (exited : Option ℕ) (released : List ℕ) → Process

-- One step of either thread, in a process that runs.
pub data Step (fans : List ℕ) : Process → Process → Type 0 where
  main_wins :
      (t : Phase) (r : List ℕ)
      → Step fans (state false idle t none r) (state true (releasing fans) t none r)
  main_loses :
      (t : Phase) (r : List ℕ) → Step fans (state true idle t none r) (state true aside t none r)
  main_releases :
      (f : Bool) (i : ℕ) (is : List ℕ) (t : Phase) (r : List ℕ)
      → Step fans
          (state f (releasing (i ∷ is)) t none r)
          (state f (releasing is) t none (r ++ (i ∷ [])))
  main_ends :
      (f : Bool) (t : Phase) (r : List ℕ)
      → Step fans (state f (releasing []) t none r) (state f finished t none r)
  signal_wins :
      (m : Phase) (r : List ℕ)
      → Step fans (state false m idle none r) (state true m (releasing fans) none r)
  signal_loses :
      (m : Phase) (r : List ℕ) → Step fans (state true m idle none r) (state true m idle (some 1) r)
  thread_releases :
      (f : Bool) (m : Phase) (i : ℕ) (is : List ℕ) (r : List ℕ)
      → Step fans
          (state f m (releasing (i ∷ is)) none r)
          (state f m (releasing is) none (r ++ (i ∷ [])))
  thread_ends :
      (f : Bool) (m : Phase) (r : List ℕ)
      → Step fans (state f m (releasing []) none r) (state f m finished (some 0) r)

abbrev pub start : Process
start = state false idle idle none []

pub data Reachable (fans : List ℕ) : Process → Type 0 where
  begin : Reachable fans start
  after : {p q : Process} → Reachable fans p → Step fans p q → Reachable fans q
