-- ===== src/Smc/Signal.antt =====
-- src/smc/signal.rs: the thread that alone receives the signals, with a connection of its own. What
-- it writes to stderr and the masks of the other threads are left out.
pub mod Laws
mod Tests
use fand.Prelude.{ℕ, Bool, true, false, Option, none, some, List, [], ◌∷◌, if◌then◌else◌}
use fand.Smc.Action.{Action, ◌>>◌, ok, ignore}
use fand.Smc.Ffi.{Device, SmcConnection}
use fand.Smc.Ffi.Write.{force_write_auto_mode, force_write_ftst_zero}

-- `other` is any signal that the thread did not ask for.
pub data Signal : Type 0 where
  sig_hup sig_info sig_term sig_int other : Signal

pub record SignalThreadState : Type 0 where
  pub release_in_progress : Bool
  pub fans : List ℕ
  pub reload_requested : Bool

-- The thread, with the exit code of the process once it ended it.
pub record SignalThread (D : Type 0) : Type 0 where
  pub teardown_conn : SmcConnection D
  pub state : SignalThreadState
  pub exited : Option ℕ

abbrev pub has_exited : Option ℕ → Bool
has_exited none = false
has_exited (some code) = true

module _ {D : Type 0} (sys : Device D) where
  -- An error does not stop the next write.
  unfoldable pub release_all : List ℕ → Action (SmcConnection D) Unit
  release_all [] = ignore (force_write_ftst_zero sys)
  release_all (i ∷ is) = ignore (force_write_auto_mode sys i) >> release_all is

  -- The loser of the race ends the process at once, and the winner after the writes.
  unfoldable pub teardown_and_exit : SignalThread D → SignalThread D
  teardown_and_exit t =
      if t.state.release_in_progress then record t { exited = some 1 } else record {
        teardown_conn = (release_all t.state.fans t.teardown_conn).1;
        state = record t.state { release_in_progress = true };
        exited = some 0;
      }

  unfoldable pub handle : Signal → SignalThread D → SignalThread D
  handle sig_hup t = record t { state = record t.state { reload_requested = true } }
  handle sig_info t = t
  handle sig_term t = teardown_and_exit t
  handle sig_int t = teardown_and_exit t
  handle other t = t

  -- `for sig in sigs.forever()`: no signal is looked at once the process has ended.
  unfoldable pub serve : List Signal → SignalThread D → SignalThread D
  serve [] t = t
  serve (sig ∷ sigs) t =
      let t1 = handle sig t in let rest = serve sigs t1 in if has_exited t1.exited then t1 else rest
