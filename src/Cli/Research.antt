-- ===== src/Cli/Research.antt =====
-- What src/cli/force.rs and src/cli/probe.rs share: the keys of fan 0 that they write around the
-- whitelist, a float as they send it, and reads that have a default.
pub mod Laws
pub mod Ends
use fand.Prelude.{ℕ, not, ◌||◌, [], ◌∷◌, List, Option, none, some, ◌⊎◌, inl, inr, if◌then◌else◌}
use fand.F32
use fand.F32.{F32, nan, lt, le, is_nan}
use fand.Smc.Error.{SmcError}
use fand.Smc.Value.Float.{to_bits, to_be_bytes}
use fand.Smc.Action.{Action, ◌>>=◌, ◌>>◌, ok, on_error, ignore}
use fand.Smc.Ffi.{Device, SmcConnection}
use fand.Smc.Ffi.Read.{read_f32}
use fand.Smc.Ffi.Write.{write_raw_for_research}

abbrev pub f0mn : ℕ
f0mn = 1177570670

abbrev pub f0mx : ℕ
f0mx = 1177570680

abbrev pub f0ac : ℕ
f0ac = 1177567587

abbrev pub f0tg : ℕ
f0tg = 1177572455

abbrev pub f0dc : ℕ
f0dc = 1177568355

abbrev pub f0md : ℕ
f0md = 1177578852

abbrev pub tp0a : ℕ
tp0a = 1416638561

-- `&value.to_be_bytes()`.
unfoldable pub payload : F32 → List ℕ
payload value = to_be_bytes (to_bits value)

-- `f32::clamp`, which panics where the bounds are not in order.
unfoldable pub clamp : F32 → F32 → F32 → Option F32
clamp value low high =
    if le low high
    then some (if lt value low then low else if lt high value then high else value)
    else none

-- How the process ends.
pub data Ending : Type 0 where
  exits : (code : ℕ) → Ending
  panics : Ending

-- A result that is looked at later.
unfoldable pub captured : {S A : Type 0} → Action S A → Action S (SmcError ⊎ A)
captured m s = let r = m s in (inr r.0, r.1)

module _ {D : Type 0} (sys : Device D) where
  -- `read_f32(key).unwrap_or(default)`.
  unfoldable pub read_or : ℕ → F32 → Action (SmcConnection D) F32
  read_or key default = on_error (read_f32 sys key) (λ e. ok default) ok

  unfoldable pub write_mode : ℕ → Action (SmcConnection D) Unit
  write_mode mode = write_raw_for_research sys f0md (mode ∷ [])

  -- `let _ = conn.write_raw_for_research(F0MD, &[0])`.
  unfoldable pub reset_mode : Action (SmcConnection D) Unit
  reset_mode = ignore (write_mode 0)

  unfoldable pub write_float : ℕ → F32 → Action (SmcConnection D) Unit
  write_float key value = write_raw_for_research sys key (payload value)
