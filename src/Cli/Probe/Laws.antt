-- ===== src/Cli/Probe/Laws.antt =====
-- What `fand probe` asks of the kernel.
use fand.Prelude.{ℕ, refl, Option, none, some, ◌⊎◌, inl, inr, arith}
use fand.F32.{F32}
use fand.Smc.Error.{SmcError}
use fand.Smc.Action.{Action}
use fand.Smc.Action.Invariant.{
  Keeps, ok_keeps, on_error_keeps, ignore_keeps, bind_keeps, then_keeps,
}
use fand.Smc.Ffi.{Device, SmcConnection}
use fand.Smc.Ffi.Invariant.{read_f32_keeps}
use fand.Smc.Ffi.Laws.{Trace, traced}
use fand.Cli.Research.{f0mn, f0mx, f0ac, f0tg, f0dc, tp0a}
use fand.Cli.Research.Laws.{
  AreResearch, ResearchSoFar, IsFloatKey, allowed_kept, captured_keeps, read_or_keeps,
  write_mode_keeps, reset_mode_keeps, write_float_keeps,
}
use fand.Cli.Probe.{
  ProbePath, measure, probe_direct_f32, probe_mode_then_target, floor_raised, probe_floor_raise,
  probe_sensor_spoof, probe_paths, probe_with, probe_between, probe,
}

module _ {D : Type 0} (sys : Device D) where
  measure_keeps :
      (path : ProbePath) {write restore : Action (SmcConnection (Trace × D)) Unit}
      → Keeps (ResearchSoFar sys) write
      → Keeps (ResearchSoFar sys) restore
      → Keeps (ResearchSoFar sys) (measure (traced sys) path write restore)
  unfolding measure
  measure_keeps path f g = bind_keeps (read_or_keeps sys f0ac _) (λ before.
      bind_keeps (captured_keeps f)
        (λ r. bind_keeps (read_or_keeps sys f0ac _) (λ after. then_keeps g (ok_keeps _))))

  direct_keeps :
      (path : ProbePath) (key : ℕ) (value : F32)
      → IsFloatKey key
      → Keeps (ResearchSoFar sys) (probe_direct_f32 (traced sys) path key value)
  unfolding probe_direct_f32
  direct_keeps path key value h =
      measure_keeps path (write_float_keeps sys key value h) (ok_keeps tt)

  mode_keeps :
      (target : F32) → Keeps (ResearchSoFar sys) (probe_mode_then_target (traced sys) target)
  unfolding probe_mode_then_target
  mode_keeps target =
      measure_keeps _
        (then_keeps (write_mode_keeps sys 1 (omega arith))
          (write_float_keeps sys f0tg target (inl refl)))
        (ok_keeps tt)

  floor_raised_keeps :
      (original before : F32) (raised : SmcError ⊎ Unit {0})
      → Keeps (ResearchSoFar sys) (floor_raised (traced sys) original before raised)
  unfolding floor_raised
  floor_raised_keeps original before (inl e) =
      bind_keeps (read_or_keeps sys f0ac _) (λ after. ok_keeps _)
  floor_raised_keeps original before (inr u) =
      bind_keeps (captured_keeps (write_mode_keeps sys 1 (omega arith))) (λ r.
        bind_keeps (read_or_keeps sys f0ac _) (λ after.
          then_keeps (ignore_keeps (write_float_keeps sys f0mn original (inr (inr (inl refl)))))
            (ok_keeps _)))

  floor_keeps :
      (original target : F32)
      → Keeps (ResearchSoFar sys) (probe_floor_raise (traced sys) original target)
  unfolding probe_floor_raise
  floor_keeps original target = bind_keeps (read_or_keeps sys f0ac _) (λ before.
      bind_keeps (captured_keeps (write_float_keeps sys f0mn target (inr (inr (inl refl)))))
        (λ raised. floor_raised_keeps original before raised))

  spoof_keeps : Keeps (ResearchSoFar sys) (probe_sensor_spoof (traced sys))
  unfolding probe_sensor_spoof
  spoof_keeps =
      let spoofs = λ (v : F32). write_float_keeps sys tp0a v (inr (inr (inr refl))) in
      bind_keeps (read_or_keeps sys f0ac _) (λ before.
        bind_keeps (read_or_keeps sys tp0a _) (λ base. bind_keeps (captured_keeps (spoofs _)) (λ r.
          bind_keeps (read_or_keeps sys f0ac _)
            (λ after. then_keeps (ignore_keeps (spoofs base)) (ok_keeps _)))))

  probe_paths_keeps :
      (min_rpm target duty : F32)
      → Keeps (ResearchSoFar sys) (probe_paths (traced sys) min_rpm target duty)
  unfolding probe_paths
  probe_paths_keeps min_rpm target duty =
      let resets = reset_mode_keeps sys in
      then_keeps resets (
        bind_keeps (direct_keeps _ f0tg target (inl refl)) (λ o1. then_keeps resets (
          bind_keeps (direct_keeps _ f0dc duty (inr (inl refl))) (λ o2. then_keeps resets (
            bind_keeps (mode_keeps target) (λ o3. then_keeps resets (
              bind_keeps (floor_keeps min_rpm target) (λ o4.
                then_keeps resets
                  (bind_keeps spoof_keeps (λ o5. then_keeps resets (ok_keeps _)))))))))))

  probe_with_keeps :
      (min_rpm target : F32) (duty : Option F32)
      → Keeps (ResearchSoFar sys) (probe_with (traced sys) min_rpm target duty)
  unfolding probe_with
  probe_with_keeps min_rpm target none = ok_keeps _
  probe_with_keeps min_rpm target (some duty) =
      bind_keeps (probe_paths_keeps min_rpm target duty) (λ os. ok_keeps _)

  probe_between_keeps :
      (min_rpm max_rpm : F32) (target : Option F32)
      → Keeps (ResearchSoFar sys) (probe_between (traced sys) min_rpm max_rpm target)
  unfolding probe_between
  probe_between_keeps min_rpm max_rpm none = ok_keeps _
  probe_between_keeps min_rpm max_rpm (some target) = probe_with_keeps min_rpm target _

  -- Whatever the target is and whatever the kernel answers, the only writes that the command asks the
  -- kernel for are of a byte that is 0 or 1 to the mode of fan 0, and floats to its target, its duty,
  -- its floor and the sensor `Tp0a`.
  pub probe_safe :
      (target : F32) (c : SmcConnection (Trace × D))
      → AreResearch c.machine.0
      → AreResearch (probe (traced sys) target c).1.machine.0
  unfolding probe
  probe_safe target c p =
      (on_error_keeps (read_f32_keeps (allowed_kept sys) f0mn) (λ e. ok_keeps _)
          (λ min_rpm.
            bind_keeps (read_or_keeps sys f0mx _)
              (λ max_rpm. probe_between_keeps min_rpm max_rpm _))).kept
        c p
