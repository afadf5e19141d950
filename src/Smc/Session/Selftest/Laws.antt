-- ===== src/Smc/Session/Selftest/Laws.antt =====
-- What a self test that ended well reports.
use fand.Prelude.{ℕ, length, map, ◌+◌, ◌≡◌, List, All, ◌⊎◌, inl, inr, if◌then◌else◌}
use fand.Smc.Error.{SmcError, Fan}
use fand.Smc.Action.Yields.{Yields}
use fand.Smc.Ffi.{Device}
use fand.Smc.Selftest.{SelftestFanReport, SelftestReport, pass, inconclusive, all_pass}
use fand.Smc.Selftest.Laws.{IsComplete}
use fand.Smc.Session.{WriteSession}
use fand.Smc.Session.Selftest.{Progress}

-- `n` iterations more, with a sample and two round trips each.
abbrev pub HasAdvanced : ℕ → Progress → Progress → Type 0
HasAdvanced n p q =
    (q.iterations_completed ≡ p.iterations_completed + n)
    × (q.round_trip_count ≡ p.round_trip_count + n + n)
    × (length q.samples ≡ length p.samples + n)

-- The fans that reports are of.
abbrev pub fans_of : List SelftestFanReport → List ℕ
fans_of per_fan = map (λ (r : SelftestFanReport). r.fan_index) per_fan

-- What a report of these fans is like, whose iterations all ran.
abbrev pub IsJudged : ℕ → List ℕ → SelftestReport → Type 0
IsJudged iterations fans r =
    (fans_of r.per_fan ≡ fans)
    × (All (IsComplete iterations) r.per_fan)
    × (r.overall_result ≡ (if all_pass r.per_fan then pass else inconclusive))

-- An error, or such a report.
abbrev pub EndsJudged : ℕ → List ℕ → SmcError ⊎ SelftestReport → Type 0
EndsJudged iterations fans (inl e) = Unit
EndsJudged iterations fans (inr r) = IsJudged iterations fans r

-- The fans of a session.
abbrev pub indices_of : {D : Type 0} → WriteSession D → List ℕ
indices_of s = map (λ (f : Fan). f.index) s.fan_envelopes

module _ {D : Type 0} (sys : Device D) where
  -- A report is of the fan, all of whose iterations ran.
  abbrev Reports : ℕ → ℕ → SelftestFanReport → Type 0
  Reports iterations fan_index r = (r.fan_index ≡ fan_index) × IsComplete iterations r
