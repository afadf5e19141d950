-- ===== src/Cli/Keys/Tests.antt =====
-- `fand keys` on the concrete machine.
use fand.Prelude.{List, ◌≡◌, ◌↔◌, ◌∷◌, [], inr}
use fand.Prelude.Text.{Text, codes}
use fand.Smc.Ffi.Laws.{traced}
use fand.Smc.Simulated.{machine, connection_on}
use fand.Cli.Keys.{execute}
use fand.Smc.Keys.{type_ui8}
use fand.Smc.Ffi.Read.{KeyInfo}
use fand.Cli.Keys.Args.{read, parse_args}
use fand.Cli.Keys.Args.Laws.{render, HasKey, parse_args_iff}
use fand.Cli.Keys.Laws.{HasOnlyOff, execute_safe}

abbrev read_args_of_target : List Text
read_args_of_target = codes "--read" ∷ codes "F0Tg" ∷ []

parse_args_iff_example :
    (parse_args read_args_of_target ≡ inr (read (codes "F0Tg")))
    ↔ ((read_args_of_target ≡ render (read (codes "F0Tg"))) × HasKey (read (codes "F0Tg")))
parse_args_iff_example = parse_args_iff read_args_of_target (read (codes "F0Tg"))

execute_safe_example :
    HasOnlyOff machine (execute (traced machine) (inr (connection_on ([], []))) []).1
execute_safe_example = execute_safe machine [] (connection_on ([], [])) (λ fourcc value h. cc) tt

-- The mode of fan 0.
abbrev mode_info : KeyInfo
mode_info = record { data_size = 1; data_type = type_ui8 }
