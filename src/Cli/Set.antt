-- ===== src/Cli/Set.antt =====
-- src/cli/set.rs: `fand set`. What it prints is left out; what it commits and how it ends is kept.
-- A `Result` is a sum, with the error on the left. The write session is a parameter: its fans, and
-- what a commit gives.
pub mod Laws
use fand.Prelude.{
  ℕ, Bool, true, false, Option, none, some, List, [], ◌∷◌, ◌⊎◌, inl, inr, get_elem?, if◌then◌else◌,
}
use fand.Prelude.Text.{Text, codes, same_text}
use fand.F32.{F32}
use fand.Cli.Parse.{ParseError, Result, ok, err, parse_fan_index, parse_rpm}
use fand.Control.Clamp
use fand.Control.Clamp.{ClampedRpm}
use fand.Smc.Error.{
  SmcError, conflict_detected, open_failed, service_not_found, key_not_found, watchdog_fired, Fan,
}

pub data Mode : Type 0 where
  dry_run commit : Mode

pub record CliSetArgs : Type 0 where
  pub fan_index : ℕ
  pub raw_rpm : F32
  pub mode : Mode
  pub json_output : Bool

-- The texts of the errors.
pub data ArgError : Type 0 where
  fan_requires_value rpm_requires_value two_modes usage : ArgError
  bad_fan bad_rpm : ParseError → ArgError
  unknown_flag : Text → ArgError
  fan_required rpm_required mode_required : ArgError

-- The variables of the loop.
pub record Options : Type 0 where
  pub fan_index : Option ℕ
  pub raw_rpm : Option F32
  pub mode : Option Mode
  pub json_output : Bool

-- `?`: the first error ends it.
abbrev pub next_if {ℓ κ ι} : {E : Type ℓ} {A : Type κ} {B : Type ι} → E ⊎ A → (A → E ⊎ B) → E ⊎ B
next_if (inl e) f = inl e
next_if (inr a) f = f a

set_fan : Options → Result ℕ → ArgError ⊎ Options
set_fan o (ok n) = inr (record o { fan_index = some n })
set_fan o (err e) = inl (bad_fan e)

set_rpm : Options → Result F32 → ArgError ⊎ Options
set_rpm o (ok v) = inr (record o { raw_rpm = some v })
set_rpm o (err e) = inl (bad_rpm e)

set_mode : Options → Mode → Option Mode → ArgError ⊎ Options
set_mode o m none = inr (record o { mode = some m })
set_mode o m (some _) = inl two_modes

-- The arms for the flags without a value.
set_flag : Options → Text → ArgError ⊎ Options
unfolding set_mode
set_flag o a =
    if same_text a (codes "--dry-run")
    then set_mode o dry_run o.mode
    else if same_text a (codes "--commit")
    then set_mode o commit o.mode
    else if same_text a (codes "--json")
    then inr (record o { json_output = true })
    else if same_text a (codes "--help")
    then inl usage
    else if same_text a (codes "-h")
    then inl usage
    else inl (unknown_flag a)

-- The loop; a flag with a value takes two arguments.
unfoldable pub read_args : Options → List Text → ArgError ⊎ Options
unfolding set_fan set_rpm set_flag
read_args o [] = inr o
read_args o (a ∷ []) =
    if same_text a (codes "--fan")
    then inl fan_requires_value
    else if same_text a (codes "--rpm")
    then inl rpm_requires_value
    else set_flag o a
read_args o (a ∷ v ∷ rest) =
    if same_text a (codes "--fan")
    then next_if (set_fan o (parse_fan_index v)) (λ o'. read_args o' rest)
    else if same_text a (codes "--rpm")
    then next_if (set_rpm o (parse_rpm v)) (λ o'. read_args o' rest)
    else next_if (set_flag o a) (λ o'. read_args o' (v ∷ rest))

-- The three `ok_or_else`, in their order.
unfoldable pub require : Option ℕ → Option F32 → Option Mode → Bool → ArgError ⊎ CliSetArgs
require none raw mode json = inl fan_required
require (some fan) none mode json = inl rpm_required
require (some fan) (some raw) none json = inl mode_required
require (some fan) (some raw) (some mode) json =
    inr (record { fan_index = fan; raw_rpm = raw; mode = mode; json_output = json })

unfoldable pub parse_args : List Text → ArgError ⊎ CliSetArgs
unfolding read_args require
parse_args args =
    next_if
      (read_args (record { fan_index = none; raw_rpm = none; mode = none; json_output = false })
        args)
      (λ o. require o.fan_index o.raw_rpm o.mode o.json_output)

unfoldable pub code_from_smc_error : SmcError → ℕ
code_from_smc_error (conflict_detected _ _) = 5
code_from_smc_error (open_failed _) = 2
code_from_smc_error service_not_found = 2
code_from_smc_error (key_not_found _) = 3
code_from_smc_error (watchdog_fired _ _) = 4
code_from_smc_error _ = 1

pub record Session : Type 0 where
  pub fans : List Fan
  pub commit_set_fan : ℕ → ClampedRpm → SmcError ⊎ Unit {0}

-- The process exits, or holds the override until a signal ends it.
pub data Outcome : Type 0 where
  exits : (code : ℕ) → Outcome
  holds : Outcome

abbrev after_commit : SmcError ⊎ Unit {0} → Outcome
after_commit (inl e) = exits (code_from_smc_error e)
after_commit (inr _) = holds

-- What is committed, if anything, and the outcome.
unfoldable pub perform :
    Option F32 → Session → CliSetArgs → Mode → Fan → Option (ℕ × ClampedRpm) × Outcome
perform env s a dry_run fan = (none, exits 0)
perform env s a commit fan =
    let clamped = Clamp.new env a.raw_rpm fan.min_rpm fan.max_rpm in
    (some (a.fan_index, clamped), after_commit (s.commit_set_fan a.fan_index clamped))

unfoldable pub with_fan :
    Option F32 → Session → CliSetArgs → Option Fan → Option (ℕ × ClampedRpm) × Outcome
unfolding perform
with_fan env s a none = (none, exits 64)
with_fan env s a (some fan) = perform env s a a.mode fan

unfoldable pub with_session :
    Option F32 → Session → List Fan → CliSetArgs → Option (ℕ × ClampedRpm) × Outcome
unfolding with_fan
with_session env s [] a = (none, exits 3)
with_session env s (f ∷ fs) a = with_fan env s a (get_elem? (f ∷ fs) a.fan_index)

unfoldable pub acquired :
    Option F32 → SmcError ⊎ Session → CliSetArgs → Option (ℕ × ClampedRpm) × Outcome
unfolding with_session code_from_smc_error
acquired env (inl e) a = (none, exits (code_from_smc_error e))
acquired env (inr s) a = with_session env s s.fans a

unfoldable pub parsed :
    Option F32 → SmcError ⊎ Session → ArgError ⊎ CliSetArgs → Option (ℕ × ClampedRpm) × Outcome
unfolding acquired
parsed env acquire (inl e) = (none, exits 64)
parsed env acquire (inr a) = acquired env acquire a

unfoldable pub run_with_code :
    Option F32 → SmcError ⊎ Session → List Text → Option (ℕ × ClampedRpm) × Outcome
unfolding parse_args parsed
run_with_code env acquire args = parsed env acquire (parse_args args)
