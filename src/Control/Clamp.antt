-- ===== src/Control/Clamp.antt =====
-- `ClampedRpm` of src/control/state.rs: the only fan target that the write path accepts.
-- The operator's floor, `FAND_SAFE_MIN_RPM`, is an argument: the number that its text stands for,
-- and `none` where it is unset or its text is no number.
pub mod Laws
use fand.Prelude.{ℕ, Bool, not, ◌||◌, ◌&&◌, Option, none, some, if◌then◌else◌}
use fand.F32.{F32, lt, is_finite, round, as_u32, of_ℕ}

pub record ClampedRpm : Type 0 where
  pub value : ℕ  -- u32

unfoldable pub effective_safe_min : Option F32 → F32 → F32
effective_safe_min none hardware_min = hardware_min
effective_safe_min (some safe) hardware_min =
    if is_finite safe && lt hardware_min safe then safe else hardware_min

-- The value before it is rounded.
clamp : F32 → F32 → F32 → F32
clamp raw low high =
    if not (is_finite raw) || lt raw low then low else if lt high raw then high else raw

unfoldable pub new : Option F32 → F32 → F32 → F32 → ClampedRpm
unfolding effective_safe_min clamp
new env raw low high = record {
  value = as_u32 (round (clamp raw (effective_safe_min env low) high));
}

unfoldable pub as_f32 : ClampedRpm → F32
as_f32 c = of_ℕ c.value

unfoldable pub was_clamped : Option F32 → F32 → F32 → F32 → Bool
unfolding effective_safe_min
was_clamped env raw low high =
    not (is_finite raw) || (lt raw (effective_safe_min env low) || lt high raw)
