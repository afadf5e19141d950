-- ===== src/F32/Parse.antt =====
-- `str::parse` of the language, for unsigned integers and for `f32`, and `from_str_radix(_, 16)`.
use fand.Prelude.{
  ℕ, zero, suc, ◌+◌, ◌-◌, ◌*◌, ◌^◌, Bool, true, false, ◌&&◌, ◌||◌, ◌==◌, ltb, leb, Option, none,
  some, [], ◌∷◌, if◌then◌else◌,
}
use fand.Prelude.Text.{Text, codes, same_text}
use fand.F32.{F32, nan, pos_inf, neg, ratio}

abbrev pub digit_of : ℕ → Option ℕ
digit_of b = if leb b'0' b && leb b b'9' then some (b - b'0') else none

abbrev hex_digit_of : ℕ → Option ℕ
hex_digit_of b =
    if leb b'0' b && leb b b'9'
    then some (b - b'0')
    else if leb b'a' b && leb b b'f'
    then some (b - b'a' + 10)
    else if leb b'A' b && leb b b'F'
    then some (b - b'A' + 10)
    else none

-- A number in the base that passes the limit nowhere.
abbrev next_digit : ℕ → ℕ → ℕ → Option ℕ → Option ℕ
next_digit base limit acc none = none
next_digit base limit acc (some d) =
    if ltb limit (acc * base + d) then none else some (acc * base + d)

unfoldable pub number_from : (ℕ → Option ℕ) → ℕ → ℕ → Option ℕ → Text → Option ℕ
number_from digit base limit none s = none
number_from digit base limit (some acc) [] = some acc
number_from digit base limit (some acc) (b ∷ s) =
    number_from digit base limit (next_digit base limit acc (digit b)) s

-- The digits may have a plus before them, and may not be missing.
abbrev unsigned : (ℕ → Option ℕ) → ℕ → ℕ → Text → Option ℕ
unsigned digit base limit [] = none
unsigned digit base limit (b ∷ s) = number_from digit base limit (some 0) (b ∷ s)

abbrev signed : (ℕ → Option ℕ) → ℕ → ℕ → Text → Option ℕ
signed digit base limit [] = none
signed digit base limit (b ∷ s) =
    if b == b'+' then unsigned digit base limit s else unsigned digit base limit (b ∷ s)

unfoldable pub parse_uint : ℕ → Text → Option ℕ
parse_uint limit s = signed digit_of 10 limit s

unfoldable pub parse_hex_u8 : Text → Option ℕ
parse_hex_u8 s = signed hex_digit_of 16 255 s

-- The digits at the front: the number with them behind it, how many there are, and what follows.
unfoldable pub digits_from : ℕ → ℕ → Text → ℕ × ℕ × Text
digits_from acc count [] = (acc, count, [])
digits_from acc count (b ∷ s) =
    let rest = digits_from (acc * 10 + (b - b'0')) (count + 1) s in
    if leb b'0' b && leb b b'9' then rest else (acc, count, b ∷ s)

-- `m * 10 ^ e / 10 ^ places`, where all of an exponent's text is digits.
abbrev scaled : ℕ → ℕ → Bool → ℕ × ℕ × Text → Option F32
scaled m places minus (e, zero, rest) = none
scaled m places minus (e, suc n, b ∷ rest) = none
scaled m places false (e, suc n, []) = some (ratio (m * 10 ^ e) (10 ^ places))
scaled m places true (e, suc n, []) = some (ratio m (10 ^ (places + e)))

abbrev exponent : ℕ → ℕ → Text → Option F32
exponent m places [] = none
exponent m places (b ∷ s) =
    if b == b'+'
    then scaled m places false (digits_from 0 0 s)
    else if b == b'-'
    then scaled m places true (digits_from 0 0 s)
    else scaled m places false (digits_from 0 0 (b ∷ s))

-- What may follow the digits.
abbrev finish : ℕ → ℕ → Text → Option F32
finish m places [] = some (ratio m (10 ^ places))
finish m places (b ∷ s) = if b == b'e' || b == b'E' then exponent m places s else none

-- After the whole digits: a fraction, if there is a dot. Some digit has to be there.
abbrev fraction : ℕ → ℕ → Text → Option F32
fraction m count [] = if count == 0 then none else finish m 0 []
fraction m count (b ∷ s) =
    let (m', places, rest) = digits_from m 0 s in
    if b == b'.'
    then if count + places == 0 then none else finish m' places rest
    else if count == 0
    then none
    else finish m 0 (b ∷ s)

unfoldable pub lower : Text → Text
lower [] = []
lower (b ∷ s) = (if leb b'A' b && leb b b'Z' then b + 32 else b) ∷ lower s

unfoldable pub parse_magnitude : Text → Option F32
unfolding lower digits_from
parse_magnitude s =
    let (m, count, rest) = digits_from 0 0 s in
    if same_text (lower s) (codes "inf") || same_text (lower s) (codes "infinity")
    then some pos_inf
    else if same_text (lower s) (codes "nan")
    then some nan
    else fraction m count rest

abbrev negated : Option F32 → Option F32
negated none = none
negated (some v) = some (neg v)

unfoldable pub parse_float : Text → Option F32
unfolding parse_magnitude
parse_float [] = none
parse_float (b ∷ s) =
    if b == b'+'
    then parse_magnitude s
    else if b == b'-'
    then negated (parse_magnitude s)
    else parse_magnitude (b ∷ s)
