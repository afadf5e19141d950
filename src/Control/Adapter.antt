-- ===== src/Control/Adapter.antt =====
-- src/control/adapter.rs: the two fan modes of Apple Silicon, with a band between them.
pub mod Laws
use fand.Prelude.{ℕ, if◌then◌else◌}
use fand.F32.{F32, add, sub, mul, ratio, le, lt}

-- `auto` leaves the fan to the system; `forced_minimum` holds it at its floor.
pub data AppleSiliconDecision : Type 0 where
  forced_minimum auto : AppleSiliconDecision

unfoldable pub mode_byte : AppleSiliconDecision → ℕ
mode_byte forced_minimum = 1
mode_byte auto = 0

pub record AppleSiliconAdapter : Type 0 where
  pub current : AppleSiliconDecision

unfoldable pub new : AppleSiliconAdapter
new = record { current = auto }

unfoldable pub engage_threshold : F32 → F32 → F32
engage_threshold low high = add low (mul (sub high low) (ratio 5 100))

unfoldable pub disengage_threshold : F32 → F32 → F32
disengage_threshold low high = add low (mul (sub high low) (ratio 10 100))

decide_from : AppleSiliconDecision → F32 → F32 → F32 → AppleSiliconDecision
unfolding engage_threshold disengage_threshold
decide_from auto target low high =
    if le target (engage_threshold low high) then forced_minimum else auto
decide_from forced_minimum target low high =
    if lt (disengage_threshold low high) target then auto else forced_minimum

-- The new adapter; its `current` is the decision returned.
unfoldable pub decide : AppleSiliconAdapter → F32 → F32 → F32 → AppleSiliconAdapter
unfolding decide_from
decide a target low high = record { current = decide_from a.current target low high }
