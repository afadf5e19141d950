-- ===== src/Control/StageTests.antt =====
-- The stages of the controller at concrete inputs.
use fand.Prelude.{ℕ, ◌*◌, ◌≤◌, ◌≡◌, refl, true, some, List, [], ◌∷◌, arith}
use fand.Prelude.Int.{pos}
use mathlib.Core.List.{Memᴰ}
use fand.F32.{F32, nan, fin, one, of_ℕ, as_u32, round, sub}
use fand.Control.Curve.{Breakpoint, evaluate}
use fand.Control.Curve.Exact.{Rising, evaluate-breakpoint}
use fand.Control.Hysteresis.{HysteresisState, held}
use fand.Control.Panic.{PanicState}
use fand.Control.Clamp
use fand.Control.Clamp.{effective_safe_min, was_clamped}
use fand.Control.Clamp.Laws.{new_bounds}

abbrev whole : ℕ → F32
whole n = fin (pos (n * one))

abbrev low : F32
low = whole 2317

abbrev high : F32
high = whole 7826

abbrev hot : PanicState
hot = record { latched = true; consecutive_above = 2; entered_at = some 0 }

-- The operator's floor is 3000, above the fan's own.
new_bounds_example :
    (as_u32 (round (effective_safe_min (some (whole 3000)) low))
      ≤ (Clamp.new (some (whole 3000)) nan low high).value)
    × ((Clamp.new (some (whole 3000)) nan low high).value ≤ as_u32 (round high))
unfolding effective_safe_min
new_bounds_example = new_bounds (some (whole 3000)) nan low high refl

abbrev first : Breakpoint
first = (whole 40, 2317)

abbrev others : List Breakpoint
others = (whole 70, 5000) ∷ (whole 90, 7826) ∷ []

evaluate-breakpoint_example : evaluate (first ∷ others) (whole 70) ≡ of_ℕ 5000
unfolding Rising sub
evaluate-breakpoint_example =
    evaluate-breakpoint first others (whole 70, 5000)
      (refl, refl, refl, omega arith, (refl, refl, refl, omega arith, (refl, omega arith)))
      (Memᴰ.tail (Memᴰ.head refl))

abbrev holding : HysteresisState
holding = record { hold_rpm = whole 3000; direction = held; last_temp = whole 50 }
