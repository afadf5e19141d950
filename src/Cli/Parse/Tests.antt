-- ===== src/Cli/Parse/Tests.antt =====
-- The parsers at concrete texts.
use fand.Prelude.{◌≤◌, ◌≡◌, ◌≢◌, ◌↔◌, [], ◌∷◌}
use fand.Prelude.Text.{Text}
use fand.Cli.Parse.{ok, parse_fan_index}
use fand.Cli.Parse.Laws.{Digits, value, parse_fan_index_iff}

abbrev twelve : Text
twelve = b'1' ∷ b'2' ∷ []

parse_fan_index_iff_example :
    (parse_fan_index twelve ≡ ok 12)
    ↔ ((twelve ≢ []) × Digits twelve × (value twelve ≡ 12) × (12 ≤ 255))
parse_fan_index_iff_example = parse_fan_index_iff twelve 12
