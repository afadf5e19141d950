-- ===== src/Cli/Parse/Laws.antt =====
-- The fan index parser: exactly the decimal numbers of 8 bits, leading zeros included.
use fand.Prelude.{
  ℕ, ◌+◌, ◌-◌, ◌*◌, ◌≤◌, ◌≡◌, ◌≢◌, ◌↔◌, inl, inr, refl, sym, ◌∙◌, true, none, some, [], ◌∷◌, All,
  arith, ltb, if◌then◌else◌, Bool-cases,
}
use fand.Prelude.Text.{Text}
use fand.Cli.Parse.{
  overflow, Result, ok, err, ◌>>◌, or_err, is_digit, validate_strict_integer, parse_u8_from,
  parse_fan_index,
}

abbrev pub Digits : Text → Type 0
Digits = All (λ b. is_digit b ≡ true)

-- The number that digits stand for, after those of `acc`.
unfoldable pub value_from : ℕ → Text → ℕ
value_from acc [] = acc
value_from acc (b ∷ s) = value_from (acc * 10 + (b - b'0')) s

abbrev pub value : Text → ℕ
value = value_from 0

validate_integer_ok : (s : Text) → Digits s → validate_strict_integer s ≡ ok tt
unfolding validate_strict_integer
validate_integer_ok [] d = refl
validate_integer_ok (b ∷ s) d = rw d.0 (validate_integer_ok s d.1)

validate_integer-Digits : (s : Text) (u : Unit {0}) → validate_strict_integer s ≡ ok u → Digits s
unfolding validate_strict_integer
validate_integer-Digits [] u h = tt
validate_integer-Digits (b ∷ s) u h = elim (Bool-cases (is_digit b)) [
  | inl e ↦ (e, validate_integer-Digits s u (rw e at h))
  | inr e ↦ ground arith
]

le-value_from : (acc : ℕ) (s : Text) → acc ≤ value_from acc s
unfolding value_from
le-value_from acc [] = omega arith
le-value_from acc (b ∷ s) = omega (arith, le-value_from (acc * 10 + (b - b'0')) s)

parse_u8_from_lem :
    (acc : ℕ) (s : Text)
    → acc ≤ 255
    → parse_u8_from acc s ≡ (if ltb 255 (value_from acc s) then none else some (value_from acc s))
unfolding parse_u8_from value_from
parse_u8_from_lem acc [] h = ground arith
parse_u8_from_lem acc (b ∷ s) h =
    ground
      (arith, parse_u8_from_lem (acc * 10 + (b - b'0')) s, le-value_from (acc * 10 + (b - b'0')) s)

parse-Digits :
    (b : ℕ) (s : Text)
    → Digits (b ∷ s)
    → parse_fan_index (b ∷ s)
      ≡ (if ltb 255 (value (b ∷ s)) then err overflow else ok (value (b ∷ s)))
unfolding parse_fan_index
parse-Digits b s d =
    rw (validate_integer_ok (b ∷ s) d, parse_u8_from_lem 0 (b ∷ s) (omega arith))
      (elim (Bool-cases (ltb 255 (value (b ∷ s)))) [ inl e ↦ rw e | inr e ↦ rw e ])

empty_refused : (n : ℕ) → ¬ (parse_fan_index [] ≡ ok n)
unfolding parse_fan_index
empty_refused n h = cc

pub >>-eq-ok {ℓ} :
    {A : Type ℓ} (m : Result (Unit {0})) (k : Result A) (a : A) → (m >> k) ≡ ok a → m ≡ ok tt
>>-eq-ok (ok tt) k a h = refl
>>-eq-ok (err e) k a h = cc

accepted-Digits : (b : ℕ) (s : Text) (n : ℕ) → parse_fan_index (b ∷ s) ≡ ok n → Digits (b ∷ s)
unfolding parse_fan_index
accepted-Digits b s n h =
    validate_integer-Digits (b ∷ s) tt
      (>>-eq-ok (validate_strict_integer (b ∷ s)) (or_err (parse_u8_from 0 (b ∷ s)) overflow) n h)

in_range : (v n : ℕ) → ((if ltb 255 v then err overflow else ok v) ≡ ok n) ↔ ((v ≡ n) × (n ≤ 255))
in_range v n = ground arith

accepted :
    (s : Text) (n : ℕ) → parse_fan_index s ≡ ok n → (s ≢ []) × Digits s × (value s ≡ n) × (n ≤ 255)
accepted [] n h = absurd (empty_refused n h)
accepted (b ∷ s) n h =
    let d = accepted-Digits b s n h in
    let (e, le) = (in_range (value (b ∷ s)) n).0 (sym (parse-Digits b s d) ∙ h) in
    ((λ c. cc), d, e, le)

Digits-accepted :
    (s : Text) (n : ℕ) → s ≢ [] → Digits s → value s ≡ n → n ≤ 255 → parse_fan_index s ≡ ok n
Digits-accepted [] n c d e le = absurd (c refl)
Digits-accepted (b ∷ s) n c d e le = parse-Digits b s d ∙ (in_range (value (b ∷ s)) n).1 (e, le)

-- A text is accepted exactly if it is one or more digits whose number is at most 255, and the
-- number is the result: leading zeros do not matter, and `00`, which the doc lists as rejected, is
-- accepted as 0.
pub parse_fan_index_iff :
    (s : Text) (n : ℕ)
    → (parse_fan_index s ≡ ok n) ↔ ((s ≢ []) × Digits s × (value s ≡ n) × (n ≤ 255))
parse_fan_index_iff s n = (accepted s n, λ h. Digits-accepted s n h.0 h.1 h.2 h.3)

-- A leading zero changes nothing: with a zero in front the result is the same.
pub parse_fan_index-zero :
    (b : ℕ) (s : Text) → parse_fan_index (b'0' ∷ b ∷ s) ≡ parse_fan_index (b ∷ s)
unfolding parse_fan_index
parse_fan_index-zero b s = refl
