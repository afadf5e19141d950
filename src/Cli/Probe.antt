-- ===== src/Cli/Probe.antt =====
-- src/cli/probe.rs: `fand probe` on an open connection, from its target on. The waiting and what is
-- printed are left out. The bits of the attributes are a number; `& ATTR_WRITABLE` is its bit 6.
pub mod Laws
pub mod Ends
mod Tests
use fand.Prelude.{
  ℕ, zero, suc, ◌+◌, ◌/◌, ◌%◌, min, Bool, true, false, not, ◌&&◌, ◌||◌, ◌==◌, ◌++◌, Option, none,
  some, List, [], ◌∷◌, ◌⊎◌, inl, inr, if◌then◌else◌,
}
use fand.F32
use fand.F32.{F32, nan, le, lt, of_ℕ, abs}
use fand.Smc.Error.{SmcError}
use fand.Smc.Action.{Action, ◌>>=◌, ◌>>◌, ok, on_error, ignore, modify}
use fand.Smc.Ffi.{Device, SmcConnection, close}
use fand.Smc.Ffi.Read.{KeyInfo, read_f32, read_u32, read_key_at_index, read_key_info_full}
use fand.Cli.Research.{
  f0mn, f0mx, f0ac, f0tg, f0dc, tp0a, clamp, Ending, exits, panics, captured, read_or, write_mode,
  reset_mode, write_float,
}

pub data ProbePath : Type 0 where
  f0tg_direct f0dc_direct f0md_then_f0tg f0mn_raise tp0a_spoof : ProbePath

pub record ProbeOutcome : Type 0 where
  pub path : ProbePath
  pub write_result : SmcError ⊎ Unit {0}
  pub actual_rpm_before : F32
  pub actual_rpm_after : F32
  pub delta_rpm : F32

abbrev is_ok : SmcError ⊎ Unit {0} → Bool
is_ok (inl e) = false
is_ok (inr _) = true

unfoldable pub passed : ProbeOutcome → F32 → Bool
passed o min_delta = is_ok o.write_result && le min_delta (abs o.delta_rpm)

unfoldable pub any_passed : List ProbeOutcome → Bool
any_passed [] = false
any_passed (o ∷ outcomes) = passed o (of_ℕ 500) || any_passed outcomes

abbrev outcome_of : ProbePath → SmcError ⊎ Unit {0} → F32 → F32 → ProbeOutcome
outcome_of path result before after = record {
  path = path;
  write_result = result;
  actual_rpm_before = before;
  actual_rpm_after = after;
  delta_rpm = F32.sub after before;
}

module _ {D : Type 0} (sys : Device D) where
  -- A write between two readings of the speed, and what puts things back.
  unfoldable pub measure :
      ProbePath
      → Action (SmcConnection D) Unit
      → Action (SmcConnection D) Unit
      → Action (SmcConnection D) ProbeOutcome
  measure path write restore = do
    before ← read_or sys f0ac nan
    result ← captured write
    after ← read_or sys f0ac nan
    restore
    ok (outcome_of path result before after)

  unfoldable pub probe_direct_f32 : ProbePath → ℕ → F32 → Action (SmcConnection D) ProbeOutcome
  probe_direct_f32 path fourcc value = measure path (write_float sys fourcc value) (ok tt)

  unfoldable pub probe_mode_then_target : F32 → Action (SmcConnection D) ProbeOutcome
  probe_mode_then_target target_rpm =
      measure f0md_then_f0tg (write_mode sys 1 >> write_float sys f0tg target_rpm) (ok tt)

  -- Where the floor was not raised it is not restored.
  unfoldable pub floor_raised :
      F32 → F32 → SmcError ⊎ Unit {0} → Action (SmcConnection D) ProbeOutcome
  floor_raised original_min before (inl e) = do
    after ← read_or sys f0ac nan
    ok (outcome_of f0mn_raise (inl e) before after)
  floor_raised original_min before (inr _) = do
    result ← captured (write_mode sys 1)
    after ← read_or sys f0ac nan
    ignore (write_float sys f0mn original_min)
    ok (outcome_of f0mn_raise result before after)

  unfoldable pub probe_floor_raise : F32 → F32 → Action (SmcConnection D) ProbeOutcome
  probe_floor_raise original_min target_rpm = do
    before ← read_or sys f0ac nan
    raised ← captured (write_float sys f0mn target_rpm)
    floor_raised original_min before raised

  -- The temperature is written back whether it was read and spoofed or not.
  unfoldable pub probe_sensor_spoof : Action (SmcConnection D) ProbeOutcome
  probe_sensor_spoof = do
    before_rpm ← read_or sys f0ac nan
    baseline_temp ← read_or sys tp0a (of_ℕ 45)
    result ← captured (write_float sys tp0a (of_ℕ 99))
    after_rpm ← read_or sys f0ac nan
    ignore (write_float sys tp0a baseline_temp)
    ok (outcome_of tp0a_spoof result before_rpm after_rpm)

  -- The five probes, each after a reset of the mode, and the last reset.
  unfoldable pub probe_paths : F32 → F32 → F32 → Action (SmcConnection D) (List ProbeOutcome)
  probe_paths min_rpm target duty = do
    reset_mode sys
    o1 ← probe_direct_f32 f0tg_direct f0tg target
    reset_mode sys
    o2 ← probe_direct_f32 f0dc_direct f0dc duty
    reset_mode sys
    o3 ← probe_mode_then_target target
    reset_mode sys
    o4 ← probe_floor_raise min_rpm target
    reset_mode sys
    o5 ← probe_sensor_spoof
    reset_mode sys
    ok (o1 ∷ o2 ∷ o3 ∷ o4 ∷ o5 ∷ [])

  unfoldable pub ending_of : List ProbeOutcome → Ending
  ending_of outcomes = exits (if any_passed outcomes then 0 else 1)

  -- A target of 0 stands for none.
  unfoldable pub effective_target : F32 → F32 → F32 → Option F32
  effective_target target_rpm min_rpm max_rpm =
      if lt (of_ℕ 0) target_rpm
      then clamp target_rpm min_rpm max_rpm
      else some (F32.min (F32.add min_rpm (of_ℕ 1500)) (F32.sub max_rpm (of_ℕ 100)))

  unfoldable pub duty_target : F32 → F32 → F32 → Option F32
  duty_target target min_rpm max_rpm =
      clamp (F32.div (F32.sub target min_rpm) (F32.sub max_rpm min_rpm)) (of_ℕ 0) (of_ℕ 1)

  -- The clamp of the duty to 0 and 1 never panics, so it may come before the first writes.
  unfoldable pub probe_with : F32 → F32 → Option F32 → Action (SmcConnection D) Ending
  probe_with min_rpm target none = ok panics
  probe_with min_rpm target (some duty) =
      probe_paths min_rpm target duty >>= λ outcomes. ok (ending_of outcomes)

  unfoldable pub probe_between : F32 → F32 → Option F32 → Action (SmcConnection D) Ending
  probe_between min_rpm max_rpm none = ok panics
  probe_between min_rpm max_rpm (some target) =
      probe_with min_rpm target (duty_target target min_rpm max_rpm)

  unfoldable pub probe : F32 → Action (SmcConnection D) Ending
  probe target_rpm =
      on_error (read_f32 sys f0mn) (λ e. ok (exits 1))
        (λ min_rpm. do
          max_rpm ← read_or sys f0mx (F32.add min_rpm (of_ℕ 4233))
          probe_between min_rpm max_rpm (effective_target target_rpm min_rpm max_rpm))

-- A key, its size, its type and its attributes.
pub record WritableEntry : Type 0 where
  pub fourcc : ℕ
  pub size : ℕ
  pub type : ℕ
  pub attributes : ℕ

abbrev key_count_key : ℕ
key_count_key = 592135513

abbrev is_writable : ℕ → Bool
is_writable attributes = (attributes / 64) % 2 == 1

module _ {D : Type 0} (sys : Device D) where
  abbrev entry : ℕ → KeyInfo × ℕ → List WritableEntry → List WritableEntry
  entry fourcc (info, attributes) rest =
      if is_writable attributes
      then record {
        fourcc = fourcc;
        size = info.data_size;
        type = info.data_type;
        attributes = attributes;
      }
        ∷ rest
      else rest

  -- The indices from `i` on, with `n` to go. One that cannot be read is passed over.
  unfoldable pub walk : ℕ → ℕ → Action (SmcConnection D) (List WritableEntry)
  walk i zero = ok []
  walk i (suc n) =
      on_error (read_key_at_index sys i) (λ e. walk (i + 1) n)
        (λ fourcc.
          on_error (read_key_info_full sys fourcc) (λ e. walk (i + 1) n)
            (λ found. walk (i + 1) n >>= λ rest. ok (entry fourcc found rest)))

  unfoldable pub run_enumerate : Action (SmcConnection D) (Ending × List WritableEntry)
  run_enumerate =
      on_error (read_u32 sys key_count_key) (λ e. ok (exits 1, []))
        (λ total. walk 0 (min total 8000) >>= λ writable. ok (exits 0, writable))
