-- ===== src/Smc/SingleInstance/Pid.antt =====
-- `contents.trim().parse::<libc::pid_t>()` of src/smc/single_instance.rs, on the UTF-8 bytes of a
-- text.
use fand.Prelude.{
  ℕ, zero, suc, ◌-◌, ◌==◌, ◌||◌, ◌&&◌, leb, Bool, Option, none, some, [], ◌∷◌, ◌++◌, get_or,
  if◌then◌else◌,
}
use fand.Prelude.Int.{ℤ, pos, negsuc}
use fand.Prelude.Text.{Text}
use fand.F32.Parse.{digit_of, number_from}

-- The characters of one, two and three bytes that are white space in Unicode.
abbrev is_space : ℕ → Bool
is_space b = (leb 9 b && leb b 13) || b == 32

abbrev is_space_2 : ℕ → ℕ → Bool
is_space_2 a b = a == 194 && (b == 133 || b == 160)

abbrev is_space_3 : ℕ → ℕ → ℕ → Bool
is_space_3 a b c =
    (a == 225 && b == 154 && c == 128)
    || (a == 226 && b == 128 && (leb 128 c && leb c 138 || c == 168 || c == 169 || c == 175))
    || (a == 226 && b == 129 && c == 159)
    || (a == 227 && b == 128 && c == 128)

-- How many bytes the white character at the front takes, and the one at the front of a text whose
-- bytes are in the reverse order.
abbrev space_front : Text → ℕ
space_front s =
    let a = get_or s 0 0 in
    let b = get_or s 1 0 in
    let c = get_or s 2 0 in
    if is_space a then 1 else if is_space_2 a b then 2 else if is_space_3 a b c then 3 else 0

abbrev space_back : Text → ℕ
space_back s =
    let a = get_or s 0 0 in
    let b = get_or s 1 0 in
    let c = get_or s 2 0 in
    if is_space a then 1 else if is_space_2 b a then 2 else if is_space_3 c b a then 3 else 0

-- Drops characters from the front for as long as they are white; the first bytes are of one that is
-- being dropped.
unfoldable trim_from : (Text → ℕ) → ℕ → Text → Text
trim_from space k [] = []
trim_from space (suc k) (b ∷ s) = trim_from space k s
trim_from space zero (b ∷ s) =
    let n = space (b ∷ s) in let rest = trim_from space (n - 1) s in if n == 0 then b ∷ s else rest

unfoldable backward : Text → Text
backward [] = []
backward (b ∷ s) = backward s ++ (b ∷ [])

unfoldable pub trim : Text → Text
unfolding trim_from backward
trim s = backward (trim_from space_back 0 (backward (trim_from space_front 0 s)))

abbrev negated : ℕ → ℤ
negated zero = pos 0
negated (suc n) = negsuc n

-- One digit or more.
abbrev digits : ℕ → Text → Option ℕ
digits limit [] = none
digits limit (b ∷ s) = number_from digit_of 10 limit (some 0) (b ∷ s)

abbrev signed : (ℕ → ℤ) → Option ℕ → Option ℤ
signed sign none = none
signed sign (some n) = some (sign n)

-- `i32::from_str`.
unfoldable pub parse_pid : Text → Option ℤ
parse_pid [] = none
parse_pid (b ∷ s) =
    if b == b'-'
    then signed negated (digits 2147483648 s)
    else signed pos (if b == b'+' then digits 2147483647 s else digits 2147483647 (b ∷ s))
