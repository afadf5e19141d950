-- ===== src/Config/Validate/Accepts.antt =====
-- The validation accepts exactly the valid configurations: the fans, their indices, and the rest.
use fand.Prelude.{
  ℕ, suc, ◌≤◌, ◌≡◌, ◌≢◌, ◌↔◌, ◌⊎◌, refl, Bool, false, not, ◌||◌, ltb, none, List, [], ◌∷◌, ◌++◌,
  All, length, arith, if◌then◌else◌,
}
use fand.Prelude.Text.{Text, codes, same_text_iff}
use fand.F32.{lt, of_ℕ}
use fand.Control.Curve.{Breakpoint}
use fand.Config.Schema.{SensorRef, FanBinding, Config, curve_too_short, hysteresis_inverted}
use fand.Config.Validate.{
  error_if, curve_errors, is_empty, validate_fan, contains, duplicate_errors, fan_errors,
  known_level, global_errors, all_fan_errors, validate,
}
use fand.Config.Validate.Laws.{
  IsCurve, FanIsValid, Distinct, IsValid, append-empty, iff_trans, checked, sensor_errors-empty,
  whole_curve-empty,
}

is_empty_iff : (ss : List SensorRef) → (is_empty ss ≡ false) ↔ (ss ≢ [])
unfolding is_empty
is_empty_iff [] = (λ h. cc, λ h. absurd (h refl))
is_empty_iff (s ∷ ss) = (λ h c. cc, λ h. refl)

or_iff : (a b : Bool) → ((a || b) ≡ false) ↔ ((a ≡ false) × (b ≡ false))
or_iff a b = ground arith

two_or_more : (n : ℕ) → ltb (suc (suc n)) 2 ≡ false
two_or_more n = ground arith

-- The part of a fan that is checked after the sensors.
after_sensors-empty :
    (fan : FanBinding) (curve : List Breakpoint)
    → ((if ltb (length curve) 2
          then curve_too_short fan.index (length curve) ∷ []
          else curve_errors fan.index 0 none curve
            ++ error_if
                (lt fan.hysteresis_down (of_ℕ 0) || lt (of_ℕ 10) fan.hysteresis_down)
                (hysteresis_inverted fan.index fan.hysteresis_up fan.hysteresis_down))
        ≡ [])
      ↔ (IsCurve curve
          × (lt fan.hysteresis_down (of_ℕ 0) ≡ false)
          × (lt (of_ℕ 10) fan.hysteresis_down ≡ false))
unfolding IsCurve
after_sensors-empty fan [] = (λ h. cc, λ h. absurd (omega (arith, h.0)))
after_sensors-empty fan (b ∷ []) = (λ h. cc, λ h. absurd (omega (arith, h.0.0)))
after_sensors-empty fan (b ∷ c ∷ rest) = rw (two_or_more (length rest)) (
    iff_trans
      (append-empty _ _ (whole_curve-empty fan.index b (c ∷ rest)) (λ _.
        checked _ (hysteresis_inverted fan.index fan.hysteresis_up fan.hysteresis_down)
          (or_iff (lt fan.hysteresis_down (of_ℕ 0)) (lt (of_ℕ 10) fan.hysteresis_down))))
      (
        λ h. ((omega arith, h.0.0, h.0.1, h.0.2), h.1.0, h.1.1),
        λ h. ((h.0.1, h.0.2, h.0.3), (h.1, h.2)),
      ))

validate_fan-empty : (fan : FanBinding) → (validate_fan fan ≡ []) ↔ FanIsValid fan
unfolding validate_fan
validate_fan-empty fan =
    iff_trans
      (append-empty _ _ (checked _ _ (is_empty_iff fan.sensors)) (λ _.
        append-empty _ _ (sensor_errors-empty fan.sensors)
          (λ _. after_sensors-empty fan fan.curve)))
      (λ h. (h.0, h.1.0, h.1.1.0, h.1.1.1, h.1.1.2), λ h. (h.0, (h.1, (h.2, h.3, h.4))))

fan_errors-empty : (fans : List FanBinding) → (fan_errors fans ≡ []) ↔ All FanIsValid fans
unfolding fan_errors
fan_errors-empty [] = (λ h. tt, λ h. refl)
fan_errors-empty (fan ∷ fans) =
    append-empty _ _ (validate_fan-empty fan) (λ _. fan_errors-empty fans)

-- No fan has one of the indices seen.
abbrev Unseen : List ℕ → List FanBinding → Type 0
Unseen seen = All (λ g. contains seen g.index ≡ false)

Unseen-cons :
    (i : ℕ) (seen : List ℕ) (fans : List FanBinding)
    → Unseen (i ∷ seen) fans ↔ (Unseen seen fans × All (λ g. g.index ≢ i) fans)
unfolding contains
Unseen-cons i seen [] = (λ h. (tt, tt), λ h. tt)
Unseen-cons i seen (g ∷ fans) = ground (arith, Unseen-cons i seen fans)

duplicate_errors-empty :
    (seen : List ℕ) (fans : List FanBinding)
    → (duplicate_errors seen fans ≡ []) ↔ (Unseen seen fans × Distinct fans)
unfolding duplicate_errors Distinct
duplicate_errors-empty seen [] = (λ h. (tt, tt), λ h. refl)
duplicate_errors-empty seen (fan ∷ fans) =
    let later = Unseen-cons fan.index seen fans in
    iff_trans
      (append-empty _ _ (checked _ _ (λ h. h, λ h. h))
        (λ _. duplicate_errors-empty (fan.index ∷ seen) fans))
      (
        λ h. ((h.0, (later.0 h.1.0).0), ((later.0 h.1.0).1, h.1.1)),
        λ h. (h.0.0, (later.1 (h.0.1, h.1.0), h.1.1)),
      )

Unseen-nil : (fans : List FanBinding) → Unseen [] fans
unfolding contains
Unseen-nil [] = tt
Unseen-nil (g ∷ fans) = (refl, Unseen-nil fans)

all_fan_errors-empty :
    (fans : List FanBinding)
    → (all_fan_errors fans ≡ []) ↔ ((fans ≢ []) × Distinct fans × All FanIsValid fans)
unfolding all_fan_errors
all_fan_errors-empty [] = (λ h. cc, λ h. absurd (h.0 refl))
all_fan_errors-empty (fan ∷ fans) =
    iff_trans
      (append-empty _ _ (duplicate_errors-empty [] (fan ∷ fans))
        (λ _. fan_errors-empty (fan ∷ fans)))
      (λ h. ((λ c. cc), h.0.1, h.1), λ h. ((Unseen-nil (fan ∷ fans), h.1), h.2))

poll_iff : (n : ℕ) → ((ltb n 100 || ltb 5000 n) ≡ false) ↔ ((100 ≤ n) × (n ≤ 5000))
poll_iff n = ground arith

level_iff :
    (s : Text)
    → (not (known_level s) ≡ false)
      ↔ ((s ≡ codes "error") ⊎ ((s ≡ codes "warn") ⊎ ((s ≡ codes "info") ⊎ (s ≡ codes "debug"))))
level_iff s = ground (
  arith,
  same_text_iff s (codes "error"),
  same_text_iff s (codes "warn"),
  same_text_iff s (codes "info"),
  same_text_iff s (codes "debug"),
)

-- The list of errors is empty exactly for a valid configuration: a poll interval of 100 to 5000 ms,
-- one of the four log levels, at least one fan, no index twice, and for each fan sensors of four
-- printable bytes, at least one, a curve of two or more breakpoints, finite, not negative and rising
-- in temperature, and a hysteresis margin that is neither below 0 nor above 10.
pub validate_iff : (c : Config) → (validate c ≡ []) ↔ IsValid c
unfolding validate global_errors
validate_iff c =
    iff_trans
      (append-empty _ _
        (append-empty _ _ (checked _ _ (poll_iff c.poll_interval_ms))
          (λ _. checked _ _ (level_iff c.log_level)))
        (λ _. all_fan_errors-empty c.fan))
      (
        λ h. record {
          poll = h.0.0;
          level = h.0.1;
          some_fan = h.1.0;
          distinct = h.1.1;
          fans = h.1.2;
        },
        λ v. ((v.poll, v.level), (v.some_fan, v.distinct, v.fans)),
      )
