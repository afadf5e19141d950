-- ===== src/Cli/Selftest/Laws.antt =====
-- Which iterations `fand selftest` takes, when it exits with 0, and what `--fan` changes.
use fand.Prelude.{
  ℕ, ◌≤◌, ◌<◌, ◌≡◌, refl, true, false, leb, none, some, List, [], ◌⊎◌, inl, inr, length, All, arith,
}
use fand.Prelude.Text.{Text}
use fand.Smc.Ffi.{Device}
use fand.Smc.Selftest
use fand.Smc.Selftest.{SelftestReport, all_pass}
use fand.Smc.Selftest.Laws.{IsComplete}
use fand.Smc.Session.{WriteSession}
use fand.Smc.Session.Selftest.{run_selftest}
use fand.Smc.Session.Selftest.Laws.{fans_of, indices_of}
use fand.Cli.Selftest.{CliSelftestArgs, FlagError, out_of_range, on_session}

-- An error, or from 1 to 100 iterations.
abbrev IsBounded : FlagError ⊎ CliSelftestArgs → Type 0
IsBounded (inl e) = Unit
IsBounded (inr a) = (1 ≤ a.iterations) × (a.iterations ≤ 100)

-- The report is of these fans, on each of which every iteration ran, and every fan passed.
abbrev pub HasPassed : ℕ → List ℕ → SelftestReport → Type 0
HasPassed iterations fans report =
    (fans_of report.per_fan ≡ fans)
    × (All (IsComplete iterations) report.per_fan)
    × (all_pass report.per_fan ≡ true)

module _ {D : Type 0} (sys : Device D) (elapsed_ms : ℕ) where
  -- How a test ended well: on a machine without fans, or with a report.
  abbrev pub EndsWell : WriteSession D → ℕ → Type 0
  EndsWell s iterations =
      (s.fan_envelopes ≡ [])
      ⊎ ((report : SelftestReport) × ((run_selftest sys iterations elapsed_ms s).0 ≡ inr report)
          × HasPassed iterations (indices_of s) report)

  -- A `--fan` that names a fan which is there changes nothing: the same fans are tested, the session
  -- ends the same and so does the exit code.
  pub target_fan_ignored :
      (s : WriteSession D) (a : CliSelftestArgs) (idx : ℕ)
      → idx < length s.fan_envelopes
      → on_session sys elapsed_ms s (record a { target_fan = some idx })
        ≡ on_session sys elapsed_ms s (record a { target_fan = none })
  unfolding on_session out_of_range
  target_fan_ignored s a idx h =
      let there : leb (length s.fan_envelopes) idx ≡ false = ground (arith, h) in rw there refl
