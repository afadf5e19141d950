-- ===== src/Config/Validate.antt =====
-- src/config/validate.rs: the checks of a configuration, every violation reported.
-- `errors.push` is an append: each function returns the errors that it pushes, in their order.
pub mod Laws
pub mod Accepts
use fand.Prelude.{
  ℕ, ◌+◌, Bool, true, false, not, ◌&&◌, ◌||◌, ltb, leb, ◌==◌, Option, none, some, List, [], ◌∷◌,
  ◌++◌, length, if◌then◌else◌,
}
use fand.Prelude.Text.{Text, codes, same_text}
use fand.F32.{F32, lt, le, is_finite, of_ℕ}
use fand.Control.Curve.{Breakpoint}
use fand.Config.Schema.{
  SensorRef, name, smc, FanBinding, Config, poll_interval_range, log_level_unknown, no_fan_section,
  rpm_not_finite, ValidationError, missing_required, duplicate_fan_index, empty_sensors,
  unknown_sensor, curve_too_short, non_monotone_temp, hysteresis_inverted,
}

-- `if bad { errors.push(e) }`.
abbrev pub error_if : Bool → ValidationError → List ValidationError
error_if bad e = if bad then e ∷ [] else []

abbrev pub sensor_name : SensorRef → Text
sensor_name (name s) = s
sensor_name (smc s) = s

-- `is_ascii_graphic`, or a space.
abbrev pub is_printable : ℕ → Bool
is_printable b = leb 32 b && leb b 126

unfoldable pub all_printable : Text → Bool
all_printable [] = true
all_printable (b ∷ s) = is_printable b && all_printable s

unfoldable pub sensor_errors : List SensorRef → List ValidationError
unfolding all_printable
sensor_errors [] = []
sensor_errors (sensor ∷ sensors) =
    let s = sensor_name sensor in
    error_if (not (length s == 4) || not (all_printable s))
      (unknown_sensor s (codes "must be exactly 4 printable ASCII bytes" ∷ []))
    ++ sensor_errors sensors

-- The check against `curve[i - 1]`, where there is one.
unfoldable pub order_errors : ℕ → ℕ → Option F32 → F32 → List ValidationError
order_errors idx i none temp = []
order_errors idx i (some prev) temp = error_if (le temp prev) (non_monotone_temp idx i prev temp)

-- The loop over the curve from breakpoint `i` on.
unfoldable pub curve_errors : ℕ → ℕ → Option F32 → List Breakpoint → List ValidationError
unfolding order_errors
curve_errors idx i prev [] = []
curve_errors idx i prev ((temp, rpm) ∷ rest) =
    error_if (not (is_finite temp) || lt temp (of_ℕ 0)) (non_monotone_temp idx i (of_ℕ 0) temp)
    ++ (error_if (not (is_finite (of_ℕ rpm))) (missing_required (rpm_not_finite idx i) (some idx))
        ++ (order_errors idx i prev temp ++ curve_errors idx (i + 1) (some temp) rest))

unfoldable pub is_empty : List SensorRef → Bool
is_empty [] = true
is_empty (_ ∷ _) = false

unfoldable pub validate_fan : FanBinding → List ValidationError
unfolding sensor_errors curve_errors is_empty
validate_fan fan =
    error_if (is_empty fan.sensors) (empty_sensors fan.index)
    ++ (sensor_errors fan.sensors
        ++ (if ltb (length fan.curve) 2
            then curve_too_short fan.index (length fan.curve) ∷ []
            else curve_errors fan.index 0 none fan.curve
              ++ error_if (lt fan.hysteresis_down (of_ℕ 0) || lt (of_ℕ 10) fan.hysteresis_down)
                  (hysteresis_inverted fan.index fan.hysteresis_up fan.hysteresis_down)))

unfoldable pub contains : List ℕ → ℕ → Bool
contains [] i = false
contains (j ∷ seen) i = i == j || contains seen i

-- The set of the indices seen is a list: `insert` says whether the index was new.
unfoldable pub duplicate_errors : List ℕ → List FanBinding → List ValidationError
unfolding contains
duplicate_errors seen [] = []
duplicate_errors seen (fan ∷ fans) =
    error_if (contains seen fan.index) (duplicate_fan_index fan.index)
    ++ duplicate_errors (fan.index ∷ seen) fans

unfoldable pub fan_errors : List FanBinding → List ValidationError
unfolding validate_fan
fan_errors [] = []
fan_errors (fan ∷ fans) = validate_fan fan ++ fan_errors fans

abbrev pub known_level : Text → Bool
known_level s =
    same_text s (codes "error")
    || (same_text s (codes "warn") || (same_text s (codes "info") || same_text s (codes "debug")))

-- The checks that do not need a fan.
unfoldable pub global_errors : Config → List ValidationError
global_errors c =
    error_if (ltb c.poll_interval_ms 100 || ltb 5000 c.poll_interval_ms)
      (missing_required (poll_interval_range c.poll_interval_ms) none)
    ++ error_if (not (known_level c.log_level))
        (missing_required (log_level_unknown c.log_level) none)

-- Those of the fans; without one there is an early return.
unfoldable pub all_fan_errors : List FanBinding → List ValidationError
unfolding duplicate_errors fan_errors
all_fan_errors [] = missing_required no_fan_section none ∷ []
all_fan_errors (fan ∷ fans) = duplicate_errors [] (fan ∷ fans) ++ fan_errors (fan ∷ fans)

unfoldable pub validate : Config → List ValidationError
unfolding global_errors all_fan_errors
validate c = global_errors c ++ all_fan_errors c.fan
