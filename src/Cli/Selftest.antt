-- ===== src/Cli/Selftest.antt =====
-- src/cli/selftest.rs: `fand selftest`. What it prints is left out. What `WriteSession::acquire`
-- gives is an argument, and so is the time that the test takes. A session that is dropped is torn
-- down.
pub mod Laws
mod Tests
use fand.Prelude.{
  ℕ, Bool, true, false, not, ◌&&◌, ◌||◌, ◌==◌, leb, Option, none, some, List, [], ◌∷◌, ◌⊎◌, inl,
  inr, length, if◌then◌else◌,
}
use fand.Prelude.Text.{Text, codes, same_text}
use fand.F32.Parse.{parse_uint}
use fand.Cli.Parse.{ParseError, Result, ok, err, parse_fan_index}
use fand.Smc.Error.{SmcError, conflict_detected, open_failed, service_not_found, watchdog_fired}
use fand.Smc.Ffi.{Device}
use fand.Smc.Selftest.{SelftestReport, exit_code}
use fand.Smc.Session.{WriteSession}
use fand.Smc.Session.Selftest.{run_selftest}
use fand.Smc.Session.Teardown.{teardown}

pub record CliSelftestArgs : Type 0 where
  pub target_fan : Option ℕ
  pub iterations : ℕ
  pub json_output : Bool

-- The texts of the errors.
pub data FlagError : Type 0 where
  fan_requires_value iterations_requires_value iterations_integer iterations_range usage : FlagError
  bad_fan : ParseError → FlagError
  unknown_flag : Text → FlagError

abbrev pub default_iterations : ℕ
default_iterations = 5

unfoldable pub with_fan : CliSelftestArgs → Result ℕ → FlagError ⊎ CliSelftestArgs
with_fan o (ok n) = inr (record o { target_fan = some n })
with_fan o (err e) = inl (bad_fan e)

unfoldable pub with_iterations : CliSelftestArgs → Option ℕ → FlagError ⊎ CliSelftestArgs
with_iterations o none = inl iterations_integer
with_iterations o (some n) =
    if not (leb 1 n && leb n 100) then inl iterations_range else inr (record o { iterations = n })

-- The arms for the flags without a value.
unfoldable pub with_flag : CliSelftestArgs → Text → FlagError ⊎ CliSelftestArgs
with_flag o a =
    if same_text a (codes "--json")
    then inr (record o { json_output = true })
    else if same_text a (codes "--help")
    then inl usage
    else if same_text a (codes "-h")
    then inl usage
    else inl (unknown_flag a)

-- The loop; a flag with a value takes two arguments.
unfoldable pub read_flags : FlagError ⊎ CliSelftestArgs → List Text → FlagError ⊎ CliSelftestArgs
unfolding with_fan with_iterations with_flag
read_flags (inl e) args = inl e
read_flags (inr o) [] = inr o
read_flags (inr o) (a ∷ []) =
    if same_text a (codes "--fan")
    then inl fan_requires_value
    else if same_text a (codes "--iterations")
    then inl iterations_requires_value
    else with_flag o a
read_flags (inr o) (a ∷ v ∷ rest) =
    let fan = read_flags (with_fan o (parse_fan_index v)) rest in
    let number = read_flags (with_iterations o (parse_uint 255 v)) rest in
    let flag = read_flags (with_flag o a) (v ∷ rest) in
    if same_text a (codes "--fan")
    then fan
    else if same_text a (codes "--iterations")
    then number
    else flag

unfoldable pub parse_flags : List Text → FlagError ⊎ CliSelftestArgs
unfolding read_flags
parse_flags args =
    read_flags
      (inr (record { target_fan = none; iterations = default_iterations; json_output = false }))
      args

unfoldable pub code_of_error : SmcError → ℕ
code_of_error (conflict_detected _ _) = 5
code_of_error (open_failed _) = 2
code_of_error service_not_found = 2
code_of_error (watchdog_fired _ _) = 4
code_of_error _ = 1

-- Whether `--fan` names a fan that is not there.
unfoldable pub out_of_range : ℕ → Option ℕ → Bool
out_of_range fans_count none = false
out_of_range fans_count (some idx) = leb fans_count idx

unfoldable pub code_of_report : SmcError ⊎ SelftestReport → ℕ
code_of_report (inl e) = code_of_error e
code_of_report (inr report) = exit_code report.overall_result

module _ {D : Type 0} (sys : Device D) (elapsed_ms : ℕ) where
  -- The test of an open session, which is dropped on every way out.
  unfoldable pub on_session : WriteSession D → CliSelftestArgs → ℕ × WriteSession D
  on_session s a =
      let fans_count = length s.fan_envelopes in
      let tested = run_selftest sys a.iterations elapsed_ms s in
      if fans_count == 0
      then (0, teardown sys s)
      else if out_of_range fans_count a.target_fan
      then (64, teardown sys s)
      else (code_of_report tested.0, teardown sys tested.1)

  -- The session, where there was one.
  unfoldable pub on_acquired :
      SmcError ⊎ WriteSession D → CliSelftestArgs → ℕ × Option (WriteSession D)
  on_acquired (inl e) a = (code_of_error e, none)
  on_acquired (inr s) a = let r = on_session s a in (r.0, some r.1)

  unfoldable pub on_flags :
      SmcError ⊎ WriteSession D → FlagError ⊎ CliSelftestArgs → ℕ × Option (WriteSession D)
  on_flags acquired (inl e) = (64, none)
  on_flags acquired (inr a) = on_acquired acquired a

  unfoldable pub run_with_code : SmcError ⊎ WriteSession D → List Text → ℕ × Option (WriteSession D)
  run_with_code acquired args = on_flags acquired (parse_flags args)
