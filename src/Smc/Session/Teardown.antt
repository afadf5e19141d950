-- ===== src/Smc/Session/Teardown.antt =====
-- `teardown` of src/smc/write_session.rs, which the first caller runs. Its dump of the ring to
-- stderr is left out.
pub mod Laws
pub mod Releases
use fand.Prelude.{ℕ, Bool, true, false, List, [], ◌∷◌, if◌then◌else◌}
use fand.Smc.Action.{Action, ◌>>◌, ok, ask, ◌>>=◌, modify, ignore}
use fand.Smc.Ffi.{Device, close}
use fand.Smc.Ffi.Write.{force_write_auto_mode, force_write_ftst_zero}
use fand.Smc.Session.{WriteSession, on_conn}
use fand.Smc.Session.Unlocking.{release_diagnostic_unlock}

module _ {D : Type 0} (sys : Device D) where
  -- Step 1: every fan back to auto; an error does not stop the next.
  unfoldable pub release_fans : List ℕ → Action (WriteSession D) Unit
  release_fans [] = ok tt
  release_fans (i ∷ is) = ignore (on_conn (force_write_auto_mode sys i)) >> release_fans is

  unfoldable pub checklist : Action (WriteSession D) Unit
  checklist = do
    fans ← ask (λ (s : WriteSession D). s.fans)
    release_fans fans
    release_diagnostic_unlock sys
    ignore (on_conn (force_write_ftst_zero sys))
    modify (λ (s : WriteSession D). record s { conn = close sys s.conn; signal_thread = false })

  unfoldable pub teardown : WriteSession D → WriteSession D
  teardown s = if s.tear_down_once then s else (checklist (record s { tear_down_once = true })).1
