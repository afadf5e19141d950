-- ===== src/Config/Validate/Laws.antt =====
-- The validation accepts exactly the valid configurations.
use fand.Prelude.{
  ℕ, ◌+◌, ◌≤◌, ◌≡◌, ◌≢◌, ◌↔◌, ◌⊎◌, refl, Bool, true, false, not, ◌||◌, ◌==◌, none, some, List, [],
  ◌∷◌, ◌++◌, All, length, arith,
}
use fand.Prelude.Text.{Text, codes}
use fand.F32.{F32, lt, le, is_finite, is_nan, of_ℕ}
use fand.F32.Order.{Le, not-lt→le, le→not-lt, not-le→lt, lt→not-le}
use fand.Control.Curve.{Breakpoint}
use fand.Config.Schema.{SensorRef, FanBinding, Config, ValidationError}
use fand.Config.Validate.{
  error_if, sensor_name, all_printable, sensor_errors, order_errors, curve_errors,
}

-- A name of four printable ASCII bytes.
abbrev pub IsSensor : SensorRef → Type 0
IsSensor r = (length (sensor_name r) ≡ 4) × All (λ b. (32 ≤ b) × (b ≤ 126)) (sensor_name r)

abbrev pub IsBreakpoint : Breakpoint → Type 0
IsBreakpoint b = (is_finite b.0 ≡ true) × Le (of_ℕ 0) b.0 × (is_finite (of_ℕ b.1) ≡ true)

-- Each temperature is above the one before.
unfoldable pub Rises : Breakpoint → List Breakpoint → Type 0
Rises b [] = Unit {0}
Rises b (c ∷ rest) = (lt b.0 c.0 ≡ true) × Rises c rest

unfoldable pub IsCurve : List Breakpoint → Type 0
IsCurve [] = 2 ≤ 0
IsCurve (b ∷ rest) = (2 ≤ length (b ∷ rest)) × IsBreakpoint b × All IsBreakpoint rest × Rises b rest

-- The margin is not below 0 and not above 10; NaN is neither.
abbrev pub FanIsValid : FanBinding → Type 0
FanIsValid fan =
    (fan.sensors ≢ [])
    × All IsSensor fan.sensors
    × IsCurve fan.curve
    × (lt fan.hysteresis_down (of_ℕ 0) ≡ false)
    × (lt (of_ℕ 10) fan.hysteresis_down ≡ false)

unfoldable pub Distinct : List FanBinding → Type 0
Distinct [] = Unit {0}
Distinct (fan ∷ fans) = All (λ g. g.index ≢ fan.index) fans × Distinct fans

pub record IsValid (c : Config) : Type 0 where
  pub poll : (100 ≤ c.poll_interval_ms) × (c.poll_interval_ms ≤ 5000)
  pub level :
      (c.log_level ≡ codes "error")
      ⊎ ((c.log_level ≡ codes "warn")
          ⊎ ((c.log_level ≡ codes "info") ⊎ (c.log_level ≡ codes "debug")))
  pub some_fan : c.fan ≢ []
  pub distinct : Distinct c.fan
  pub fans : All FanIsValid c.fan

-- Two lists are empty together; the second may be read knowing what the first one tells.
pub append-empty {ℓ κ} :
    {P : Type ℓ} {Q : Type κ} (xs ys : List ValidationError)
    → (xs ≡ []) ↔ P
    → (P → (ys ≡ []) ↔ Q)
    → (xs ++ ys ≡ []) ↔ (P × Q)
append-empty [] ys p q = (λ h. (p.0 refl, (q (p.0 refl)).0 h), λ h. (q h.0).1 h.1)
append-empty (x ∷ xs) ys p q = (λ h. cc, λ h. absurd (cons_not_nil x xs (p.1 h.0)))
  where
    cons_not_nil : (e : ValidationError) (es : List ValidationError) → ¬ ((e ∷ es) ≡ [])
    cons_not_nil e es h = cc

pub error_if-empty : (bad : Bool) (e : ValidationError) → (error_if bad e ≡ []) ↔ (bad ≡ false)
error_if-empty true e = (λ h. cc, λ h. cc)
error_if-empty false e = (λ h. refl, λ h. refl)

pub iff_trans {ℓ κ ι} : {P : Type ℓ} {Q : Type κ} {R : Type ι} → P ↔ Q → Q ↔ R → P ↔ R
iff_trans f g = (λ p. g.0 (f.0 p), λ r. f.1 (g.1 r))

-- Errors under a condition, for any statement that the condition's failure amounts to.
pub checked {ℓ} :
    {P : Type ℓ} (bad : Bool) (e : ValidationError) → (bad ≡ false) ↔ P → (error_if bad e ≡ []) ↔ P
checked bad e f = iff_trans (error_if-empty bad e) f

all_printable_iff : (s : Text) → (all_printable s ≡ true) ↔ All (λ b. (32 ≤ b) × (b ≤ 126)) s
unfolding all_printable
all_printable_iff [] = (λ h. tt, λ h. refl)
all_printable_iff (b ∷ s) = ground (arith, all_printable_iff s)

sensor_iff :
    (s : Text)
    → ((not (length s == 4) || not (all_printable s)) ≡ false)
      ↔ ((length s ≡ 4) × All (λ b. (32 ≤ b) × (b ≤ 126)) s)
sensor_iff s = ground (arith, all_printable_iff s)

pub sensor_errors-empty : (ss : List SensorRef) → (sensor_errors ss ≡ []) ↔ All IsSensor ss
unfolding sensor_errors
sensor_errors-empty [] = (λ h. tt, λ h. refl)
sensor_errors-empty (r ∷ ss) =
    append-empty _ (sensor_errors ss) (checked _ _ (sensor_iff (sensor_name r)))
      (λ _. sensor_errors-empty ss)

not-false_iff : (b : Bool) → (not b ≡ false) ↔ (b ≡ true)
not-false_iff b = ground arith

finite_not_nan : (x : F32) → is_finite x ≡ true → is_nan x ≡ false
finite_not_nan x h = ground arith

of_ℕ_zero_not_nan : is_nan (of_ℕ 0) ≡ false
unfolding of_ℕ
of_ℕ_zero_not_nan = refl

temp_iff :
    (t : F32)
    → ((not (is_finite t) || lt t (of_ℕ 0)) ≡ false) ↔ ((is_finite t ≡ true) × Le (of_ℕ 0) t)
temp_iff t =
    ground (arith, finite_not_nan t, of_ℕ_zero_not_nan, not-lt→le t (of_ℕ 0), le→not-lt (of_ℕ 0) t)

above_iff :
    (t prev : F32)
    → is_finite t ≡ true
    → is_finite prev ≡ true
    → (le t prev ≡ false) ↔ (lt prev t ≡ true)
above_iff t prev f g =
    (not-le→lt t prev (finite_not_nan t f) (finite_not_nan prev g), lt→not-le prev t)

curve_errors-empty :
    (idx i : ℕ) (prev : Breakpoint) (rest : List Breakpoint)
    → is_finite prev.0 ≡ true
    → (curve_errors idx i (some prev.0) rest ≡ []) ↔ (All IsBreakpoint rest × Rises prev rest)
unfolding curve_errors order_errors Rises
curve_errors-empty idx i prev [] f = (λ h. (tt, tt), λ h. refl)
curve_errors-empty idx i prev ((t, r) ∷ rest) f =
    iff_trans
      (append-empty _ _ (checked _ _ (temp_iff t)) (λ temp.
        append-empty _ _ (checked _ _ (not-false_iff (is_finite (of_ℕ r)))) (λ _.
          append-empty _ _ (checked _ _ (above_iff t prev.0 temp.0 f))
            (λ _. curve_errors-empty idx (i + 1) (t, r) rest temp.0))))
      (
        λ h. (((h.0.0, h.0.1, h.1.0), h.1.1.1.0), (h.1.1.0, h.1.1.1.1)),
        λ h. ((h.0.0.0, h.0.0.1), (h.0.0.2, (h.1.0, (h.0.1, h.1.1)))),
      )

pub whole_curve-empty :
    (idx : ℕ) (b : Breakpoint) (rest : List Breakpoint)
    → (curve_errors idx 0 none (b ∷ rest) ≡ [])
      ↔ (IsBreakpoint b × All IsBreakpoint rest × Rises b rest)
unfolding curve_errors order_errors
whole_curve-empty idx (t, r) rest =
    iff_trans
      (append-empty _ _ (checked _ _ (temp_iff t)) (λ temp.
        append-empty _ _ (checked _ _ (not-false_iff (is_finite (of_ℕ r))))
          (λ _. curve_errors-empty idx 1 (t, r) rest temp.0)))
      (λ h. ((h.0.0, h.0.1, h.1.0), h.1.1.0, h.1.1.1), λ h. ((h.0.0, h.0.1), (h.0.2, (h.1, h.2))))
