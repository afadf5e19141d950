-- ===== src/Cli/Selftest/Tests.antt =====
-- `fand selftest` on the concrete session.
use fand.Prelude.{
  ℕ, some, none, List, false, ◌&&◌, ◌==◌, drop, if◌then◌else◌, [], ◌∷◌, length, arith,
}
use fand.Prelude.Text.{Text, codes}
use fand.Smc.Simulated.{Memory, machine, mode_0, byte_at, answer}
use fand.Cli.Selftest.{CliSelftestArgs}
use fand.Smc.Session.{WriteSession}
use fand.Smc.Ffi.{SmcParamStruct, zeroed, Device}

abbrev two_iterations : CliSelftestArgs
two_iterations = record { target_fan = none; iterations = 2; json_output = false }

-- A fan that turns at 3000 revolutions while it is on auto, and stands where it is forced.
abbrev responsive_answer : SmcParamStruct → Memory → (ℕ × SmcParamStruct) × Memory
responsive_answer input m =
    if input.data8 == 5 && input.key == 1177567587
    then (
      (
        0,
        if byte_at m mode_0 == 0
            then record zeroed { bytes = 0 ∷ 128 ∷ 59 ∷ 69 ∷ drop 4 zeroed.bytes }
            else zeroed,
      ),
      m,
    )
    else answer input m

abbrev responsive : Device Memory
responsive = record machine { call_struct_method = λ conn input m. responsive_answer input m }

abbrev once : List Text
once = codes "--iterations" ∷ codes "1" ∷ []
