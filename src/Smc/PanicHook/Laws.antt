-- ===== src/Smc/PanicHook/Laws.antt =====
-- The hook releases the fans once.
use fand.Prelude.{ℕ, zero, suc}
use fand.Smc.Ffi.{Device}
use fand.Smc.PanicHook.{PanicHook, panic_hook_body}

module _ {D : Type 0} (sys : Device D) where
  -- A panic, and a number of panics while the hook runs or after it.
  abbrev pub panics : ℕ → PanicHook D → PanicHook D
  panics zero h = h
  panics (suc n) h = panics n (panic_hook_body sys h)
