-- ===== src/Smc/PanicHook.antt =====
-- src/smc/panic_hook.rs: the release of the fans when the process panics, on a third connection. The
-- three statics are a record; the message to stderr is left out.
pub mod Laws
mod Tests
use fand.Prelude.{ℕ, Bool, true, false, Option, none, some, List, if◌then◌else◌}
use fand.Smc.Ffi.{Device, SmcConnection}
use fand.Smc.Signal.{release_all}

pub record PanicHook (D : Type 0) : Type 0 where
  pub panic_conn : Option (SmcConnection D)
  pub panic_fans : Option (List ℕ)
  pub panic_hook_active : Bool

-- `OnceLock::set`: a value that is there stays.
abbrev pub set_once : {A : Type 0} → Option A → A → Option A
set_once none a = some a
set_once (some b) a = some b

module _ {D : Type 0} where
  abbrev pub unset : PanicHook D
  unset = record { panic_conn = none; panic_fans = none; panic_hook_active = false }

  unfoldable pub seal_for_panic : SmcConnection D → List ℕ → PanicHook D → PanicHook D
  seal_for_panic conn fan_indices h = record h {
    panic_conn = set_once h.panic_conn conn;
    panic_fans = set_once h.panic_fans fan_indices;
  }

module _ {D : Type 0} (sys : Device D) where
  -- Nothing is released where the hook was not sealed.
  unfoldable pub release_sealed :
      Option (SmcConnection D) → Option (List ℕ) → Option (SmcConnection D)
  release_sealed none fans = none
  release_sealed (some conn) none = some conn
  release_sealed (some conn) (some fans) = some (release_all sys fans conn).1

  unfoldable pub panic_hook_body : PanicHook D → PanicHook D
  panic_hook_body h = if h.panic_hook_active then h else record h {
    panic_conn = release_sealed h.panic_conn h.panic_fans;
    panic_hook_active = true;
  }
