-- ===== src/Smc/Session/Selftest/Tests.antt =====
-- A self test of two iterations on the concrete machine.
use fand.Prelude.{◌≡◌, refl, [], ◌∷◌}
use fand.F32.{of_ℕ}
use fand.Smc.Selftest.{
  SelftestFanReport, fail, pass, classify, any_inconclusive, overall, sum_of, all_pass,
}

-- A fan that failed, with two of its five iterations.
abbrev unfinished : SelftestFanReport
unfinished = record {
  fan_index = 0;
  iterations_completed = 2;
  iterations_requested = 5;
  round_trip_count = 4;
  mismatch_count = 0;
  samples = [];
  median_actual_at_min = of_ℕ 0;
  median_actual_at_auto = of_ℕ 0;
  delta_rpm = of_ℕ 0;
  result = fail;
}

-- The whole test passes all the same.
passes : (classify (unfinished ∷ []) 0).overall_result ≡ pass
unfolding classify overall sum_of any_inconclusive all_pass
passes = refl
