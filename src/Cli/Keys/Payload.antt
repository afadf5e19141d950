-- ===== src/Cli/Keys/Payload.antt =====
-- The bytes of `type:value` in `fand keys --write`, src/cli/keys.rs.
use fand.Prelude.{ℕ, Bool, ◌||◌, ◌==◌, Option, none, some, List, [], ◌∷◌, if◌then◌else◌}
use fand.Prelude.Text.{Text, codes, same_text}
use fand.F32.{F32}
use fand.F32.Parse.{parse_uint, parse_hex_u8, parse_float}
use fand.Smc.Value.Float.{to_bits, to_le_bytes, to_be_bytes}

-- `split_once(':')`.
abbrev cons_first : ℕ → Option (Text × Text) → Option (Text × Text)
cons_first b none = none
cons_first b (some (before, after)) = some (b ∷ before, after)

unfoldable pub split_once : Text → Option (Text × Text)
split_once [] = none
split_once (b ∷ s) =
    let rest = split_once s in if b == b':' then some ([], s) else cons_first b rest

abbrev is_ascii_whitespace : ℕ → Bool
is_ascii_whitespace b = b == 32 || (b == 9 || (b == 10 || (b == 12 || b == 13)))

unfoldable pub cleaned : Text → Text
cleaned [] = []
cleaned (b ∷ s) = if is_ascii_whitespace b then cleaned s else b ∷ cleaned s

abbrev cons_byte : Option ℕ → Option (List ℕ) → Option (List ℕ)
cons_byte none rest = none
cons_byte (some b) none = none
cons_byte (some b) (some rest) = some (b ∷ rest)

-- Two characters to a byte; an odd number of them is refused.
unfoldable pub hex_bytes : Text → Option (List ℕ)
hex_bytes [] = some []
hex_bytes (a ∷ []) = none
hex_bytes (a ∷ b ∷ s) = cons_byte (parse_hex_u8 (a ∷ b ∷ [])) (hex_bytes s)

abbrev bytes_by : {A : Type 0} → (A → List ℕ) → Option A → Option (List ℕ)
bytes_by f none = none
bytes_by f (some a) = some (f a)

unfoldable pub typed : Option (Text × Text) → Option (List ℕ)
typed none = none
typed (some (prefix, raw_value)) =
    if same_text prefix (codes "u8")
    then bytes_by (λ v. v ∷ []) (parse_uint 255 raw_value)
    else if same_text prefix (codes "u32")
    then bytes_by to_be_bytes (parse_uint 4294967295 raw_value)
    else if same_text prefix (codes "f32")
    then bytes_by (λ (v : F32). to_le_bytes (to_bits v)) (parse_float raw_value)
    else if same_text prefix (codes "hex")
    then hex_bytes (cleaned raw_value)
    else none

-- `none` is the exit with the code 64.
unfoldable pub payload_of : Text → Option (List ℕ)
payload_of value = typed (split_once value)
