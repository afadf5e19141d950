-- ===== src/Smc/Session/Selftest.antt =====
-- `run_selftest` of src/smc/write_session.rs: each fan is forced to its minimum and given back, some
-- times over, with its speed sampled after each. The time that it took is an argument.
pub mod Laws
pub mod Invariant
mod Tests
use fand.Prelude.{ℕ, zero, suc, ◌+◌, min, List, [], ◌∷◌, ◌++◌, map, ◌⊎◌, inl, inr}
use fand.Prelude.Text.{Text, codes}
use fand.F32.{F32, of_ℕ}
use fand.Smc.Error.{SmcError, Fan}
use fand.Smc.Keys.{fan_mode}
use fand.Smc.Action.{Action, ◌>>=◌, ◌>>◌, ok, ask}
use fand.Smc.Ffi.{Device}
use fand.Smc.Ffi.Verified.{write_u8_verified}
use fand.Smc.Selftest.{
  IterationSample, SelftestFanReport, SelftestReport, classify, classify_fan, classify_iteration,
}
use fand.Smc.RoundTrip.{u64_max}
use fand.Smc.Session.{WriteSession, on_writer, heartbeat, read_actual_rpm}

abbrev pub samples_per_hold : ℕ
samples_per_hold = 5

-- The counters of a fan, and its samples in their order.
pub record Progress : Type 0 where
  pub iterations_completed : ℕ  -- u8
  pub round_trip_count : ℕ  -- u64
  pub samples : List IterationSample

abbrev pub bumped : ℕ → ℕ → ℕ
bumped limit n = min (n + 1) limit

module _ {D : Type 0} (sys : Device D) where
  -- A sample that cannot be read is 0.
  unfoldable pub sample : ℕ → Action (WriteSession D) F32
  sample fan_index s = let r = read_actual_rpm sys fan_index s in (inr (or_zero r.0), r.1)
    where
      or_zero : SmcError ⊎ F32 → F32
      or_zero (inl e) = of_ℕ 0
      or_zero (inr v) = v

  unfoldable pub hold_and_sample : ℕ → ℕ → Action (WriteSession D) (List F32)
  hold_and_sample zero fan_index = ok []
  hold_and_sample (suc n) fan_index = do
    v ← sample fan_index
    vs ← hold_and_sample n fan_index
    ok (v ∷ vs)

  -- Steps A and C: the mode, read back, then the heartbeat.
  unfoldable pub engage_mode : ℕ → ℕ → Text → Action (WriteSession D) Unit
  engage_mode fan_index value context = do
    session ← ask (λ (s : WriteSession D). s.session_id)
    on_writer (write_u8_verified sys (fan_mode fan_index) value context session)
    heartbeat sys

  unfoldable pub run_iteration : ℕ → ℕ → Action (WriteSession D) IterationSample
  run_iteration fan_index iter = do
    engage_mode fan_index 1 (codes "selftest_force_min")
    min_samples ← hold_and_sample samples_per_hold fan_index
    engage_mode fan_index 0 (codes "selftest_return_auto")
    auto_samples ← hold_and_sample samples_per_hold fan_index
    ok (classify_iteration iter auto_samples min_samples)

  abbrev pub add_sample : Progress → IterationSample → Progress
  add_sample p sample = record {
    iterations_completed = bumped 255 p.iterations_completed;
    round_trip_count = bumped u64_max (bumped u64_max p.round_trip_count);
    samples = p.samples ++ (sample ∷ []);
  }

  -- `for iter in 0..iterations`, from `iter` on with `n` to go.
  unfoldable pub run_iterations : ℕ → ℕ → ℕ → Progress → Action (WriteSession D) Progress
  run_iterations fan_index iter zero p = ok p
  run_iterations fan_index iter (suc n) p = do
    sample ← run_iteration fan_index iter
    run_iterations fan_index (iter + 1) n (add_sample p sample)

  abbrev pub no_progress : Progress
  no_progress = record { iterations_completed = 0; round_trip_count = 0; samples = [] }

  -- The first error ends the test, so that a fan with a mismatch is never classified.
  unfoldable pub test_fan : ℕ → ℕ → Action (WriteSession D) SelftestFanReport
  test_fan iterations fan_index = do
    p ← run_iterations fan_index 0 iterations no_progress
    ok (classify_fan fan_index p.iterations_completed iterations p.round_trip_count 0 p.samples)

  unfoldable pub test_fans : ℕ → List ℕ → Action (WriteSession D) (List SelftestFanReport)
  test_fans iterations [] = ok []
  test_fans iterations (i ∷ is) = do
    report ← test_fan iterations i
    reports ← test_fans iterations is
    ok (report ∷ reports)

  unfoldable pub run_selftest : ℕ → ℕ → Action (WriteSession D) SelftestReport
  run_selftest iterations elapsed_ms = do
    fan_indices ← ask (λ (s : WriteSession D). map (λ (f : Fan). f.index) s.fan_envelopes)
    reports ← test_fans iterations fan_indices
    ok (classify reports elapsed_ms)
