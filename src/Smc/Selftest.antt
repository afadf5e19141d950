-- ===== src/Smc/Selftest.antt =====
-- src/smc/selftest.rs: the samples of a self test and what is made of them. The sort is by
-- insertion; any stable sort gives the same, since a sample is never NaN.
pub mod Laws
use fand.Prelude.{
  ℕ, zero, suc, ◌+◌, ◌-◌, ◌/◌, ◌%◌, Bool, true, false, not, ◌&&◌, ◌||◌, ◌==◌, ltb, List, [], ◌∷◌,
  ◌++◌, get_or, length, if◌then◌else◌,
}
use fand.F32
use fand.F32.{F32, of_ℕ, lt, le, sub}

pub record IterationSample : Type 0 where
  pub iteration : ℕ
  pub auto_samples : List F32
  pub min_samples : List F32
  pub auto_median : F32
  pub min_median : F32
  pub delta_rpm : F32

pub data SelftestResult : Type 0 where
  pass inconclusive fail watchdog_timeout conflict_detected : SelftestResult

pub record SelftestFanReport : Type 0 where
  pub fan_index : ℕ
  pub iterations_completed : ℕ
  pub iterations_requested : ℕ
  pub round_trip_count : ℕ
  pub mismatch_count : ℕ
  pub samples : List IterationSample
  pub median_actual_at_min : F32
  pub median_actual_at_auto : F32
  pub delta_rpm : F32
  pub result : SelftestResult

pub record SelftestReport : Type 0 where
  pub per_fan : List SelftestFanReport
  pub total_iterations : ℕ
  pub total_round_trips : ℕ
  pub total_mismatches : ℕ
  pub wall_clock_ms : ℕ
  pub overall_result : SelftestResult

unfoldable pub exit_code : SelftestResult → ℕ
exit_code pass = 0
exit_code inconclusive = 3
exit_code fail = 1
exit_code watchdog_timeout = 4
exit_code conflict_detected = 5

unfoldable pub sum_of : (SelftestFanReport → ℕ) → List SelftestFanReport → ℕ
sum_of f [] = 0
sum_of f (r ∷ rs) = f r + sum_of f rs

abbrev pub is_inconclusive : SelftestResult → Bool
is_inconclusive inconclusive = true
is_inconclusive r = false

abbrev pub is_pass : SelftestResult → Bool
is_pass pass = true
is_pass r = false

unfoldable pub any_inconclusive : List SelftestFanReport → Bool
any_inconclusive [] = false
any_inconclusive (r ∷ rs) = is_inconclusive r.result || any_inconclusive rs

unfoldable pub all_pass : List SelftestFanReport → Bool
all_pass [] = true
all_pass (r ∷ rs) = is_pass r.result && all_pass rs

-- The four arms of `classify`, of which the last two agree.
unfoldable pub overall : List SelftestFanReport → SelftestResult
overall per_fan =
    if ltb 0 (sum_of (λ f. f.mismatch_count) per_fan)
    then fail
    else if any_inconclusive per_fan
    then inconclusive
    else if all_pass per_fan
    then pass
    else pass

unfoldable pub classify : List SelftestFanReport → ℕ → SelftestReport
classify per_fan wall_clock_ms = record {
  per_fan = per_fan;
  total_iterations = sum_of (λ f. f.iterations_completed) per_fan;
  total_round_trips = sum_of (λ f. f.round_trip_count) per_fan;
  total_mismatches = sum_of (λ f. f.mismatch_count) per_fan;
  wall_clock_ms = wall_clock_ms;
  overall_result = overall per_fan;
}

unfoldable pub insert : F32 → List F32 → List F32
insert v [] = v ∷ []
insert v (x ∷ xs) = let rest = insert v xs in if lt x v then x ∷ rest else v ∷ x ∷ xs

unfoldable pub sort : List F32 → List F32
sort [] = []
sort (v ∷ vs) = insert v (sort vs)

unfoldable pub median_of_sorted : List F32 → F32
median_of_sorted xs =
    let len = length xs in
    if len % 2 == 1
    then get_or xs (len / 2) (of_ℕ 0)
    else F32.div (F32.add (get_or xs (len / 2 - 1) (of_ℕ 0)) (get_or xs (len / 2) (of_ℕ 0)))
        (of_ℕ 2)

unfoldable pub median_f32 : List F32 → F32
median_f32 [] = of_ℕ 0
median_f32 (v ∷ vs) = median_of_sorted (sort (v ∷ vs))

unfoldable pub classify_iteration : ℕ → List F32 → List F32 → IterationSample
classify_iteration iteration auto_samples min_samples = record {
  iteration = iteration;
  auto_samples = auto_samples;
  min_samples = min_samples;
  auto_median = median_f32 auto_samples;
  min_median = median_f32 min_samples;
  delta_rpm = sub (median_f32 auto_samples) (median_f32 min_samples);
}

-- `flat_map`.
unfoldable pub flat_map : (IterationSample → List F32) → List IterationSample → List F32
flat_map f [] = []
flat_map f (s ∷ ss) = f s ++ flat_map f ss

-- 500 revolutions: `DELTA_THRESHOLD_RPM`.
unfoldable pub fan_result : ℕ → ℕ → ℕ → F32 → SelftestResult
fan_result iterations_completed iterations_requested mismatch_count delta_rpm =
    if ltb 0 mismatch_count
    then fail
    else if ltb iterations_completed iterations_requested
    then fail
    else if le (of_ℕ 500) delta_rpm
    then pass
    else inconclusive

unfoldable pub classify_fan : ℕ → ℕ → ℕ → ℕ → ℕ → List IterationSample → SelftestFanReport
classify_fan fan_index completed requested round_trip_count mismatch_count samples =
    let at_min = median_f32 (flat_map (λ s. s.min_samples) samples) in
    let at_auto = median_f32 (flat_map (λ s. s.auto_samples) samples) in
    record {
      fan_index = fan_index;
      iterations_completed = completed;
      iterations_requested = requested;
      round_trip_count = round_trip_count;
      mismatch_count = mismatch_count;
      samples = samples;
      median_actual_at_min = at_min;
      median_actual_at_auto = at_auto;
      delta_rpm = sub at_auto at_min;
      result = fan_result completed requested mismatch_count (sub at_auto at_min);
    }
