-- ===== src/Cli/Probe/Ends.antt =====
-- How `fand probe` ends, and with which probes made.
use fand.Prelude.{ℕ, ◌≡◌, map, List, [], ◌∷◌, ◌⊎◌, inr, if◌then◌else◌}
use fand.F32.{F32}
use fand.Smc.Action.{Action}
use fand.Smc.Ffi.{Device, SmcConnection}
use fand.Cli.Research.{Ending, exits, panics}
use fand.Cli.Research.Ends.{IsOn, ResetBy}
use fand.Smc.Action.Ends.{Ends}
use fand.Cli.Probe.{
  f0tg_direct, f0dc_direct, f0md_then_f0tg, f0mn_raise, tp0a_spoof, any_passed, ProbeOutcome,
  ProbePath, probe_paths,
}

-- The paths that are probed, in their order.
abbrev pub all_paths : List ProbePath
all_paths = f0tg_direct ∷ f0dc_direct ∷ f0md_then_f0tg ∷ f0mn_raise ∷ tp0a_spoof ∷ []

abbrev pub paths_of : List ProbeOutcome → List ProbePath
paths_of outcomes = map (λ (o : ProbeOutcome). o.path) outcomes

module _ {D : Type 0} (sys : Device D) (port : ℕ) where
  -- An action that gives an outcome of this path.
  abbrev Probes : ProbePath → Action (SmcConnection D) ProbeOutcome → Type 0
  Probes path m = Ends (IsOn port) (λ o c. (o.path ≡ path) × IsOn port c) m

  -- Outcomes of all five paths, after which the mode was reset.
  abbrev pub AreProbed : List ProbeOutcome → SmcConnection D → Type 0
  AreProbed outcomes c = (paths_of outcomes ≡ all_paths) × ResetBy sys port tt c

  -- A panic; or the end of the run of the probes, on the open connection, by the code for their
  -- outcomes, of which there is one for each of the five paths.
  abbrev pub IsProbed : Ending → SmcConnection D → Type 0
  IsProbed ending c =
      (ending ≡ panics)
      ⊎ ((min_rpm target duty : F32) × (before : SmcConnection D) × IsOn port before
          × ((outcomes : List ProbeOutcome) × (probe_paths sys min_rpm target duty before
                ≡ (inr outcomes, c))
              × (ending ≡ exits (if any_passed outcomes then 0 else 1))
              × AreProbed outcomes c))
