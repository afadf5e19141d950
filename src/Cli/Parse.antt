-- ===== src/Cli/Parse.antt =====
-- src/cli/parse.rs: the strict parsers of a fan index and of a speed.
pub mod Laws
pub mod Rpm
mod Tests
use fand.Prelude.{
  ℕ, ◌+◌, ◌-◌, ◌*◌, ◌^◌, Bool, true, false, not, ◌&&◌, ◌||◌, ltb, leb, ◌==◌, Option, none, some,
  List, [], ◌∷◌, length, if◌then◌else◌,
}
use fand.Prelude.Text.{Text}
use fand.F32.{F32, lt, is_finite, of_ℕ, ratio}

pub data ParseError : Type 0 where
  empty non_ascii_digit leading_sign whitespace locale_digit hex exponent underscore : ParseError
  multiple_dots overflow not_finite out_of_range : ParseError

-- What a parser gives.
pub data Result {ℓ} (A : Type ℓ) : Type ℓ where
  err : ParseError → Result A
  ok : A → Result A

-- `check?; rest`: the first error ends it.
infixr 4 ◌>>◌
abbrev pub ◌>>◌ {ℓ} : {A : Type ℓ} → Result (Unit {0}) → Result A → Result A
err e >> rest = err e
ok _ >> rest = rest

-- `map_err` of a parse that fails.
abbrev pub or_err {ℓ} : {A : Type ℓ} → Option A → ParseError → Result A
or_err none e = err e
or_err (some a) e = ok a

abbrev pub is_digit : ℕ → Bool
is_digit b = leb b'0' b && leb b b'9'

abbrev is_sign : ℕ → Bool
is_sign b = b == b'+' || b == b'-'

-- Space, tab, line feed, carriage return.
abbrev is_space : ℕ → Bool
is_space b = b == b' ' || (b == 9 || (b == 10 || b == 13))

abbrev is_hex_letter : ℕ → Bool
is_hex_letter b =
    b == b'x' || (b == b'X' || ((leb b'a' b && leb b b'f') || (leb b'A' b && leb b b'F')))

-- The arms that the two matches share, below those for digits and dots.
unfoldable pub reason : ℕ → ParseError
reason b =
    if is_sign b
    then leading_sign
    else if is_space b
    then whitespace
    else if b == b'_'
    then underscore
    else if b == b'e' || b == b'E'
    then exponent
    else if is_hex_letter b
    then hex
    else non_ascii_digit

unfoldable pub validate_strict_integer : Text → Result (Unit {0})
unfolding reason
validate_strict_integer [] = ok tt
validate_strict_integer (b ∷ s) =
    let rest = validate_strict_integer s in
    if is_digit b then rest else if b == b'.' then err multiple_dots else err (reason b)

-- The loop, with the number of dots and whether the last byte was one.
unfoldable pub validate_float_from : ℕ → Bool → Text → Result (Unit {0})
unfolding reason
validate_float_from dots last_was_dot [] = if last_was_dot then err multiple_dots else ok tt
validate_float_from dots last_was_dot (b ∷ s) =
    let after_digit = validate_float_from dots false s in
    let after_dot = validate_float_from (dots + 1) true s in
    if is_digit b
    then after_digit
    else if b == b'.'
    then if ltb 1 (dots + 1) then err multiple_dots else after_dot
    else err (reason b)

unfoldable pub validate_strict_float : Text → Result (Unit {0})
unfolding validate_float_from
validate_strict_float [] = validate_float_from 0 false []
validate_strict_float (b ∷ s) =
    if b == b'.' then err multiple_dots else validate_float_from 0 false (b ∷ s)

-- `parse::<u8>` of digits: it fails where a step passes 255.
unfoldable pub parse_u8_from : ℕ → Text → Option ℕ
parse_u8_from acc [] = some acc
parse_u8_from acc (b ∷ s) =
    let next = acc * 10 + (b - b'0') in
    let rest = parse_u8_from next s in if ltb 255 next then none else rest

unfoldable pub parse_fan_index : Text → Result ℕ
unfolding validate_strict_integer parse_u8_from
parse_fan_index [] = err empty
parse_fan_index (b ∷ s) = do
  validate_strict_integer (b ∷ s)
  or_err (parse_u8_from 0 (b ∷ s)) overflow

-- The digits as one whole number, with the number of them behind the dot.
unfoldable pub decimal_from : ℕ → ℕ → Bool → Text → ℕ × ℕ
decimal_from acc places behind [] = (acc, places)
decimal_from acc places behind (b ∷ s) =
    let dot = b == b'.' in
    decimal_from (if dot then acc else acc * 10 + (b - b'0'))
      (if behind && not dot then places + 1 else places) (behind || dot) s

-- `parse::<f32>` of such a text is the nearest float to the number that is written.
unfoldable pub parse_f32 : Text → F32
unfolding decimal_from
parse_f32 s = let (digits, places) = decimal_from 0 0 false s in ratio digits (10 ^ places)

unfoldable pub rpm_sanity_ceiling : F32
rpm_sanity_ceiling = of_ℕ 50000

unfoldable pub check_range : F32 → Result F32
unfolding rpm_sanity_ceiling
check_range value =
    if not (is_finite value)
    then err not_finite
    else if lt value (of_ℕ 0) || lt rpm_sanity_ceiling value
    then err out_of_range
    else ok value

unfoldable pub parse_rpm : Text → Result F32
unfolding validate_strict_float parse_f32 check_range
parse_rpm [] = err empty
parse_rpm (b ∷ s) = do validate_strict_float (b ∷ s); check_range (parse_f32 (b ∷ s))
