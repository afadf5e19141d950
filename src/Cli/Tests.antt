-- ===== src/Cli/Tests.antt =====
-- `fand set` at concrete arguments.
use fand.Prelude.{ℕ, ◌*◌, ◌≡◌, refl, ap, Option, none, some, List, [], ◌∷◌, inr}
use fand.Prelude.Int.{pos}
use fand.Prelude.Text.{Text, codes, same_text}
use fand.F32
use fand.F32.{F32, fin, one, of_ℕ, ratio}
use fand.Control.Clamp
use fand.Control.Clamp.{ClampedRpm, effective_safe_min}
use fand.Cli.Parse.{parse_fan_index, parse_rpm}
use fand.Cli.Set.{Session, CliSetArgs, parse_args, run_with_code, exits, holds, Outcome}
use fand.Cli.Set.Laws.{IsAllowed, run_with_code-commits}

abbrev whole : ℕ → F32
whole n = fin (pos (n * one))

abbrev one_fan : Session
one_fan = record {
  fans =
      record {
        index = 0;
        min_rpm = whole 2317;
        max_rpm = whole 7826;
        safe_rpm = none;
        actual_rpm = whole 2400;
        mode_key = 1177578852;
      }
      ∷ [];
  commit_set_fan = λ _ _. inr tt;
}

-- A request of 90 turns a minute, below the fan's floor.
abbrev slow : List Text
slow = codes "--fan" ∷ codes "0" ∷ codes "--rpm" ∷ codes "90" ∷ codes "--commit" ∷ []

abbrev floor : ClampedRpm
floor = record { value = 2317 }

slow_commits : run_with_code none (inr one_fan) slow ≡ (some (0, floor), holds)
unfolding run_with_code same_text parse_fan_index parse_rpm of_ℕ Clamp.new F32.round F32.as_u32
    ratio
slow_commits = refl

run_with_code-commits_example :
    (a : CliSetArgs) × (parse_args slow ≡ inr a) × IsAllowed none one_fan a 0 floor
unfolding effective_safe_min
run_with_code-commits_example =
    run_with_code-commits none one_fan slow 0 floor (refl, tt)
      (ap (λ (r : Option (ℕ × ClampedRpm) × Outcome). r.0) slow_commits)

-- Two modes are refused.
two_modes_refused :
    (run_with_code none (inr one_fan) (codes "--commit" ∷ codes "--dry-run" ∷ [])).1 ≡ exits 64
unfolding run_with_code same_text
two_modes_refused = refl
