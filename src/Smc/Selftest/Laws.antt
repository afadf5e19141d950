-- ===== src/Smc/Selftest/Laws.antt =====
-- How a self test is judged.
use fand.Prelude.{
  ℕ, ◌+◌, ◌≡◌, ◌↔◌, refl, false, not, List, [], ◌∷◌, All, length, if◌then◌else◌, arith,
}
use fand.F32.{F32, of_ℕ, le, sub}
use fand.Smc.Selftest.{
  IterationSample, median_f32, flat_map, pass, inconclusive, SelftestFanReport, sum_of,
  any_inconclusive, all_pass, overall, classify,
}

-- The result of a whole test is a pass exactly if no write was misread and no fan is inconclusive:
-- a fan that failed for want of iterations does not count.
pub classify_iff :
    (per_fan : List SelftestFanReport) (ms : ℕ)
    → ((classify per_fan ms).overall_result ≡ pass)
      ↔ (((classify per_fan ms).total_mismatches ≡ 0) × (any_inconclusive per_fan ≡ false))
unfolding classify overall
classify_iff per_fan ms = ground arith

-- By how much the median of the speeds on auto is above that of the speeds at the minimum.
abbrev pub median_rise : List IterationSample → F32
median_rise samples =
    sub (median_f32 (flat_map (λ s. s.auto_samples) samples))
      (median_f32 (flat_map (λ s. s.min_samples) samples))

-- A fan all of whose iterations ran without a misread write.
abbrev pub IsComplete : ℕ → SelftestFanReport → Type 0
IsComplete iterations r =
    (r.iterations_completed ≡ iterations)
    × (r.round_trip_count ≡ iterations + iterations)
    × (r.mismatch_count ≡ 0)
    × (r.result ≡ (if le (of_ℕ 500) (median_rise r.samples) then pass else inconclusive))
    × (length r.samples ≡ iterations)

sum_complete :
    (iterations : ℕ) (rs : List SelftestFanReport)
    → All (IsComplete iterations) rs
    → sum_of (λ f. f.mismatch_count) rs ≡ 0
unfolding sum_of
sum_complete iterations [] h = refl
sum_complete iterations (r ∷ rs) h = omega (arith, h.0.2, sum_complete iterations rs h.1)

pass_or_inconclusive :
    (iterations : ℕ) (rs : List SelftestFanReport)
    → All (IsComplete iterations) rs
    → any_inconclusive rs ≡ not (all_pass rs)
unfolding any_inconclusive all_pass
pass_or_inconclusive iterations [] h = refl
pass_or_inconclusive iterations (r ∷ rs) h =
    let rest = pass_or_inconclusive iterations rs h.1 in let result = h.0.3 in ground arith

-- Of fans whose iterations all ran, the test passes if each of them does, and else it is
-- inconclusive.
pub classify-IsComplete :
    (iterations ms : ℕ) (rs : List SelftestFanReport)
    → All (IsComplete iterations) rs
    → (classify rs ms).overall_result ≡ (if all_pass rs then pass else inconclusive)
unfolding classify overall
classify-IsComplete iterations ms rs h =
    let sum = sum_complete iterations rs h in
    let split = pass_or_inconclusive iterations rs h in ground arith
