-- ===== src/Control/Curve.antt =====
-- src/control/curve.rs: the fan curve, interpolated between breakpoints.
pub mod Laws
pub mod Exact
use fand.Prelude.{ℕ, ◌^◌, List, [], ◌∷◌, if◌then◌else◌, ◌||◌}
use fand.Prelude.Int.{pos}
use fand.F32
use fand.F32.{F32, fin, add, sub, mul, div, of_ℕ, le, lt, abs}

-- A temperature and the speed there.
abbrev pub Breakpoint : Type 0
Breakpoint = F32 × ℕ

-- `f32::EPSILON` is 2 ^ -23.
abbrev pub epsilon : F32
epsilon = fin (pos (2 ^ 126))

-- Between two neighbours.
unfoldable pub interpolate : Breakpoint → Breakpoint → F32 → F32
interpolate (t_lo, rpm_lo) (t_hi, rpm_hi) temp =
    let dt = sub t_hi t_lo in
    let t = div (sub temp t_lo) dt in
    if lt (abs dt) epsilon
    then of_ℕ rpm_lo
    else add (mul (sub (of_ℕ 1) t) (of_ℕ rpm_lo)) (mul t (of_ℕ rpm_hi))

-- The `while` loop, over `breakpoints[i - 1]` and those from `i` on; past the end it takes the last.
unfoldable pub search_from : Breakpoint → List Breakpoint → F32 → F32
unfolding interpolate
search_from prev [] temp = of_ℕ prev.1
search_from prev (next ∷ rest) temp =
    let later = search_from next rest temp in
    if le temp next.0 then interpolate prev next temp else later

unfoldable pub last_of : Breakpoint → List Breakpoint → Breakpoint
last_of b [] = b
last_of b (c ∷ rest) = last_of c rest

unfoldable pub evaluate : List Breakpoint → F32 → F32
unfolding search_from last_of
evaluate [] temp = of_ℕ 0
evaluate (b ∷ []) temp = of_ℕ b.1
evaluate (b ∷ c ∷ rest) temp =
    let last = last_of b (c ∷ rest) in
    if le temp b.0
    then of_ℕ b.1
    else if le last.0 temp
    then of_ℕ last.1
    else search_from b (c ∷ rest) temp
