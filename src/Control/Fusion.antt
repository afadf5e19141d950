-- ===== src/Control/Fusion.antt =====
-- src/control/fusion.rs: many sensor readings to one temperature.
pub mod Laws
use text.Mathlib.Text.{◌==◌ as str_eq}
use Prim.Native.String.{String}
use fand.Prelude.{Bool, true, false, ◌||◌, List, [], ◌∷◌, length, if◌then◌else◌}
use mathlib.Core.List.{foldl}
use fand.F32
use fand.F32.{F32, neg_inf, add, div, of_ℕ, is_nan, is_infinite}

pub data FusionMode : Type 0 where
  max mean : FusionMode

unfoldable pub from_str_lossy : String → FusionMode
from_str_lossy s = if str_eq s "mean" then mean else max

-- The readings whose dropout flag is false: the `zip`, the `filter` and the `map`.
unfoldable pub valid : List F32 → List Bool → List F32
valid [] _ = []
valid (_ ∷ _) [] = []
valid (v ∷ vs) (d ∷ ds) = if d then valid vs ds else v ∷ valid vs ds

-- The two arms of the match on the mode.
unfoldable pub combine : FusionMode → List F32 → F32
combine max vs = foldl F32.max neg_inf vs
combine mean vs = div (foldl add (of_ℕ 0) vs) (of_ℕ (length vs))

guard : F32 → F32 → F32
guard result last = if is_nan result || is_infinite result then last else result

fuse_valid : List F32 → FusionMode → F32 → F32
unfolding combine guard
fuse_valid [] mode last = last
fuse_valid (v ∷ vs) mode last = guard (combine mode (v ∷ vs)) last

unfoldable pub fuse : List F32 → List Bool → FusionMode → F32 → F32
unfolding fuse_valid valid
fuse values dropouts mode last = fuse_valid (valid values dropouts) mode last
