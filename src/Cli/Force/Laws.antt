-- ===== src/Cli/Force/Laws.antt =====
-- What `fand force-rpm` asks of the kernel.
use fand.Prelude.{refl, subst, sym, ◌++◌, Option, none, some, List, [], ◌∷◌, inl, inr, arith}
use fand.F32.{F32}
use fand.Smc.Action.{Action, modify}
use fand.Smc.Action.Invariant.{
  Keeps, ok_keeps, if_keeps, modify_keeps, on_error_keeps, ignore_keeps, bind_keeps, then_keeps,
}
use fand.Smc.Ffi.{Device, SmcConnection, close}
use fand.Smc.Ffi.Invariant.{read_f32_keeps}
use fand.Smc.Ffi.Laws.{Trace, traced, close-trace}
use fand.Cli.Research.{f0mn, f0mx, f0ac, f0tg, f0dc, Ending}
use fand.Cli.Research.Laws.{
  AreResearch, ResearchSoFar, allowed_kept, captured_keeps, read_or_keeps, write_mode_keeps,
  reset_mode_keeps, write_float_keeps,
}
use fand.Cli.Force.{
  Attempt, WritePath, winner, won, raised_floor, try_path, restore_floor, hold_and_teardown,
  or_next, force_floor, force_mode, force_duty, force_target, force_rpm,
}

module _ {D : Type 0} (sys : Device D) where
  try_path_keeps :
      (path : WritePath) {write : Action (SmcConnection (Trace × D)) Unit}
      → Keeps (ResearchSoFar sys) write
      → Keeps (ResearchSoFar sys) (try_path (traced sys) path write)
  unfolding try_path
  try_path_keeps path f =
      bind_keeps (captured_keeps f)
        (λ r. bind_keeps (read_or_keeps sys f0ac _) (λ after. ok_keeps _))

  teardown_keeps :
      (attempts : List Attempt) (baseline : F32) (restore : Option F32) (min_rpm : F32)
      → Keeps (ResearchSoFar sys) (hold_and_teardown (traced sys) attempts baseline restore min_rpm)
  unfolding hold_and_teardown restore_floor
  teardown_keeps attempts baseline (some orig) min_rpm =
      then_keeps (ignore_keeps (write_float_keeps sys f0mn orig (inr (inr (inl refl)))))
        (reset_mode_keeps sys)
  teardown_keeps attempts baseline none min_rpm =
      then_keeps
        (if_keeps (raised_floor (winner attempts baseline))
          (ignore_keeps (write_float_keeps sys f0mn min_rpm (inr (inr (inl refl))))) (ok_keeps tt))
        (reset_mode_keeps sys)

  close_keeps : Keeps (ResearchSoFar sys) (modify (close (traced sys)))
  close_keeps = modify_keeps _ (λ c q. subst AreResearch (sym (close-trace sys c)) q)

  or_next_keeps :
      (baseline : F32) (restore : Option F32) (min_rpm : F32) (attempts : List Attempt)
      {trial : Action (SmcConnection (Trace × D)) Attempt}
      {next : List Attempt → Action (SmcConnection (Trace × D)) Ending}
      → Keeps (ResearchSoFar sys) trial
      → ((later : List Attempt) → Keeps (ResearchSoFar sys) (next later))
      → Keeps
          (ResearchSoFar sys)
          (or_next (traced sys) baseline restore min_rpm attempts trial next)
  unfolding or_next
  or_next_keeps baseline restore min_rpm attempts f g = bind_keeps f (λ a.
      if_keeps (won (winner (attempts ++ (a ∷ [])) baseline))
        (then_keeps (then_keeps (teardown_keeps _ baseline restore min_rpm) close_keeps)
          (ok_keeps _))
        (g _))

  force_floor_keeps :
      (min_rpm target baseline : F32) (attempts : List Attempt)
      → Keeps (ResearchSoFar sys) (force_floor (traced sys) min_rpm target baseline attempts)
  unfolding force_floor
  force_floor_keeps min_rpm target baseline attempts =
      or_next_keeps baseline (some min_rpm) min_rpm attempts
        (try_path_keeps _ (
          then_keeps (write_float_keeps sys f0mn target (inr (inr (inl refl))))
            (write_mode_keeps sys 1 (omega arith))))
        (λ later.
          then_keeps (ignore_keeps (write_float_keeps sys f0mn min_rpm (inr (inr (inl refl))))) (
            then_keeps (reset_mode_keeps sys)
              (then_keeps (teardown_keeps later baseline none min_rpm) (ok_keeps _))))

  force_mode_keeps :
      (min_rpm target baseline : F32) (attempts : List Attempt)
      → Keeps (ResearchSoFar sys) (force_mode (traced sys) min_rpm target baseline attempts)
  unfolding force_mode
  force_mode_keeps min_rpm target baseline attempts =
      or_next_keeps baseline none min_rpm attempts
        (try_path_keeps _ (
          then_keeps (write_mode_keeps sys 1 (omega arith))
            (write_float_keeps sys f0tg target (inl refl))))
        (λ later.
          then_keeps (reset_mode_keeps sys) (force_floor_keeps min_rpm target baseline later))

  force_duty_keeps :
      (min_rpm target : F32) (duty : Option F32) (baseline : F32) (attempts : List Attempt)
      → Keeps (ResearchSoFar sys) (force_duty (traced sys) min_rpm target duty baseline attempts)
  unfolding force_duty
  force_duty_keeps min_rpm target none baseline attempts = ok_keeps _
  force_duty_keeps min_rpm target (some duty) baseline attempts =
      or_next_keeps baseline none min_rpm attempts
        (try_path_keeps _ (write_float_keeps sys f0dc duty (inr (inl refl))))
        (λ later.
          then_keeps (reset_mode_keeps sys) (force_mode_keeps min_rpm target baseline later))

  force_target_keeps :
      (min_rpm max_rpm : F32) (target : Option F32)
      → Keeps (ResearchSoFar sys) (force_target (traced sys) min_rpm max_rpm target)
  unfolding force_target
  force_target_keeps min_rpm max_rpm none = ok_keeps _
  force_target_keeps min_rpm max_rpm (some target) =
      bind_keeps (read_or_keeps sys f0ac _) (λ baseline. then_keeps (reset_mode_keeps sys) (
        or_next_keeps baseline none min_rpm []
          (try_path_keeps _ (write_float_keeps sys f0tg target (inl refl)))
          (λ later.
            then_keeps (reset_mode_keeps sys) (force_duty_keeps min_rpm target _ baseline later))))

  -- Whatever the target is and whatever the kernel answers, the only writes that the command asks the
  -- kernel for are of a byte that is 0 or 1 to the mode of fan 0, and floats to its target, its duty,
  -- its floor, or the sensor `Tp0a`.
  pub force_rpm_safe :
      (target : F32) (c : SmcConnection (Trace × D))
      → AreResearch c.machine.0
      → AreResearch (force_rpm (traced sys) target c).1.machine.0
  unfolding force_rpm
  force_rpm_safe target c p =
      (on_error_keeps (read_f32_keeps (allowed_kept sys) f0mn) (λ e. ok_keeps _)
          (λ min_rpm.
            bind_keeps (read_or_keeps sys f0mx _)
              (λ max_rpm. force_target_keeps min_rpm max_rpm _))).kept
        c p
