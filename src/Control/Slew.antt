-- ===== src/Control/Slew.antt =====
-- src/control/slew.rs: the limit on how fast the target may fall.
pub mod Laws
use fand.Prelude.{if◌then◌else◌}
use fand.F32
use fand.F32.{F32, sub, mul, le, of_ℕ}

unfoldable pub limit : F32 → F32 → F32 → F32 → F32
limit prev target ramp_down dt =
    let max_down = mul ramp_down (F32.min dt (of_ℕ 1)) in
    if le prev target then target else F32.max target (sub prev max_down)
