-- ===== src/Cli/Force.antt =====
-- src/cli/force.rs: `fand force-rpm` on an open connection, from the target on. The waiting, the
-- hold and what is printed are left out: they call nothing of the connection.
pub mod Laws
pub mod Ends
mod Tests
use fand.Prelude.{
  ℕ, Bool, true, false, ◌++◌, Option, none, some, List, [], ◌∷◌, ◌⊎◌, inl, inr, if◌then◌else◌,
}
use fand.F32
use fand.F32.{F32, nan, le, of_ℕ, abs}
use fand.Smc.Error.{SmcError}
use fand.Smc.Action.{Action, ◌>>=◌, ◌>>◌, ok, on_error, ignore, modify}
use fand.Smc.Ffi.{Device, SmcConnection, close}
use fand.Smc.Ffi.Read.{read_f32}
use fand.Cli.Research.{
  f0mn, f0mx, f0ac, f0tg, f0dc, f0md, clamp, Ending, exits, panics, captured, read_or, write_mode,
  reset_mode, write_float,
}

-- The names of the paths.
pub data WritePath : Type 0 where
  f0tg_direct f0dc_direct f0md_then_f0tg f0mn_raise : WritePath

pub record Attempt : Type 0 where
  pub path : WritePath
  pub outcome : SmcError ⊎ F32

abbrev pass_delta_rpm : F32
pass_delta_rpm = of_ℕ 500

abbrev outcome_of : SmcError ⊎ Unit {0} → F32 → SmcError ⊎ F32
outcome_of (inl e) after = inl e
outcome_of (inr _) after = inr after

abbrev moved : F32 → SmcError ⊎ F32 → Bool
moved baseline (inl e) = false
moved baseline (inr after) = le pass_delta_rpm (abs (F32.sub after baseline))

unfoldable pub winner : List Attempt → F32 → Option Attempt
winner [] baseline = none
winner (a ∷ attempts) baseline =
    if moved baseline a.outcome then some a else winner attempts baseline

abbrev won : Option Attempt → Bool
won none = false
won (some a) = true

-- Whether the path that won is the one that raised the floor.
abbrev is_floor_raise : WritePath → Bool
is_floor_raise f0mn_raise = true
is_floor_raise path = false

abbrev raised_floor : Option Attempt → Bool
raised_floor none = false
raised_floor (some a) = is_floor_raise a.path

module _ {D : Type 0} (sys : Device D) where
  unfoldable pub try_path :
      WritePath → Action (SmcConnection D) Unit → Action (SmcConnection D) Attempt
  try_path path write = do
    result ← captured write
    after ← read_or sys f0ac nan
    ok (record { path = path; outcome = outcome_of result after })

  -- The floor, where it is to be restored.
  unfoldable pub restore_floor :
      List Attempt → F32 → Option F32 → F32 → Action (SmcConnection D) Unit
  restore_floor attempts baseline (some orig) original_min = ignore (write_float sys f0mn orig)
  restore_floor attempts baseline none original_min =
      if raised_floor (winner attempts baseline)
      then ignore (write_float sys f0mn original_min)
      else ok tt

  unfoldable pub hold_and_teardown :
      List Attempt → F32 → Option F32 → F32 → Action (SmcConnection D) Unit
  hold_and_teardown attempts baseline restore_floor_to original_min =
      restore_floor attempts baseline restore_floor_to original_min >> reset_mode sys

  -- One path: the end where it won, and else what follows it. A return drops the connection.
  unfoldable pub or_next :
      F32
      → Option F32
      → F32
      → List Attempt
      → Action (SmcConnection D) Attempt
      → (List Attempt → Action (SmcConnection D) Ending)
      → Action (SmcConnection D) Ending
  or_next baseline restore_floor_to min_rpm attempts trial next = do
    a ← trial
    let attempts' = attempts ++ (a ∷ [])
    if won (winner attempts' baseline)
        then (hold_and_teardown attempts' baseline restore_floor_to min_rpm
            >> modify (close sys)
            >> ok (exits 0))
        else next attempts'

  unfoldable pub force_floor : F32 → F32 → F32 → List Attempt → Action (SmcConnection D) Ending
  force_floor min_rpm target baseline attempts =
      or_next baseline (some min_rpm) min_rpm attempts
        (try_path f0mn_raise (write_float sys f0mn target >> write_mode sys 1))
        (λ attempts'. do
          ignore (write_float sys f0mn min_rpm)
          reset_mode sys
          hold_and_teardown attempts' baseline none min_rpm
          ok (exits 1))

  unfoldable pub force_mode : F32 → F32 → F32 → List Attempt → Action (SmcConnection D) Ending
  force_mode min_rpm target baseline attempts =
      or_next baseline none min_rpm attempts
        (try_path f0md_then_f0tg (write_mode sys 1 >> write_float sys f0tg target))
        (λ attempts'. reset_mode sys >> force_floor min_rpm target baseline attempts')

  -- The duty is within 0 and 1, and their clamp does not panic.
  unfoldable pub duty : F32 → F32 → F32 → Option F32
  duty target min_rpm max_rpm =
      clamp (F32.div (F32.sub target min_rpm) (F32.sub max_rpm min_rpm)) (of_ℕ 0) (of_ℕ 1)

  unfoldable pub force_duty :
      F32 → F32 → Option F32 → F32 → List Attempt → Action (SmcConnection D) Ending
  force_duty min_rpm target none baseline attempts = ok panics
  force_duty min_rpm target (some duty) baseline attempts =
      or_next baseline none min_rpm attempts (try_path f0dc_direct (write_float sys f0dc duty))
        (λ attempts'. reset_mode sys >> force_mode min_rpm target baseline attempts')

  unfoldable pub force_target : F32 → F32 → Option F32 → Action (SmcConnection D) Ending
  force_target min_rpm max_rpm none = ok panics
  force_target min_rpm max_rpm (some target) = do
    baseline ← read_or sys f0ac nan
    reset_mode sys
    or_next baseline none min_rpm [] (try_path f0tg_direct (write_float sys f0tg target))
        (λ attempts.
          reset_mode sys
          >> force_duty min_rpm target (duty target min_rpm max_rpm) baseline attempts)

  unfoldable pub force_rpm : F32 → Action (SmcConnection D) Ending
  force_rpm target =
      on_error (read_f32 sys f0mn) (λ e. ok (exits 1))
        (λ min_rpm. do
          max_rpm ← read_or sys f0mx (F32.add min_rpm (of_ℕ 4233))
          force_target min_rpm max_rpm (clamp target min_rpm max_rpm))
