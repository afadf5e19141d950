-- ===== src/Cli/Parse/Rpm.antt =====
-- The speed parser: its grammar, `^[0-9]+(\.[0-9]+)?$`, and the range of its result.
use fand.Prelude.{
  ℕ, ◌+◌, ◌-◌, ◌*◌, ◌^◌, ◌≡◌, ◌≢◌, ◌⊎◌, inl, inr, refl, sym, ap, ◌∙◌, Bool, true, false, [], ◌∷◌,
  ◌++◌, arith, ◌==◌, if◌then◌else◌, Bool-cases, ==_iff, length,
}
use fand.Prelude.Text.{Text}
use fand.Prelude.Int.{ℤ, pos}
use fand.F32.{F32, nan, pos_inf, neg_inf, fin, one, is_nan, lt, is_finite, of_ℕ, ratio}
use fand.F32.Order.{Le, not-lt→le, quot-not_nan}
use fand.Cli.Parse.{
  multiple_dots, ok, err, is_digit, validate_float_from, validate_strict_float, decimal_from,
  parse_f32, rpm_sanity_ceiling, check_range, parse_rpm,
}
use fand.Cli.Parse.Laws.{Digits, value_from, >>-eq-ok}

-- One or more digits.
abbrev pub IsNumber : Text → Type 0
IsNumber s = Digits s × (s ≢ [])

-- A number, or two with a dot between them.
pub data IsDecimal : Text → Type 0 where
  whole : {s : Text} → IsNumber s → IsDecimal s
  fraction : (i f : Text) {s : Text} → s ≡ i ++ (b'.' ∷ f) → IsNumber i → IsNumber f → IsDecimal s

-- After the dot only digits may come, and the last byte may not be the dot.
tail_Digits :
    (s : Text) (dot : Bool) (u : Unit {0})
    → validate_float_from 1 dot s ≡ ok u
    → Digits s × ((dot ≡ false) ⊎ (s ≢ []))
unfolding validate_float_from
tail_Digits [] true u h = cc
tail_Digits [] false u h = (tt, inl refl)
tail_Digits (b ∷ s) dot u h = elim (Bool-cases (is_digit b)) [
  | inl e ↦ ((e, (tail_Digits s false u (rw e at h)).0), inr (λ c. cc))
  | inr e ↦ ground arith
]

-- The same with the part before the dot still empty.
data HasForm : Text → Type 0 where
  digits : {s : Text} → Digits s → HasForm s
  dotted : (i f : Text) {s : Text} → s ≡ i ++ (b'.' ∷ f) → Digits i → IsNumber f → HasForm s

HasForm-cons : (b : ℕ) {s : Text} → is_digit b ≡ true → HasForm s → HasForm (b ∷ s)
HasForm-cons b e (digits d) = digits (e, d)
HasForm-cons b e (dotted i f p d n) = dotted (b ∷ i) f (ap (λ t. b ∷ t) p) (e, d) n

HasForm-dot : (s : Text) → Digits s × ((true ≡ false) ⊎ (s ≢ [])) → HasForm (b'.' ∷ s)
HasForm-dot s (d, inl h) = cc
HasForm-dot s (d, inr h) = dotted [] s refl tt (d, h)

float_HasForm : (s : Text) (u : Unit {0}) → validate_float_from 0 false s ≡ ok u → HasForm s
unfolding validate_float_from
float_HasForm [] u h = digits tt
float_HasForm (b ∷ s) u h = elim (Bool-cases (is_digit b)) [
  | inl e ↦ HasForm-cons b e (float_HasForm s u (rw e at h))
  | inr e ↦ elim (Bool-cases (b == b'.')) [
    | inl dot ↦
        let after : validate_float_from 1 true s ≡ ok u = rw (e, dot) at h in
        rw ((==_iff b b'.').0 dot) (HasForm-dot s (tail_Digits s true u after))
    | inr other ↦ ground arith
  ]
]

first_or : ℕ → Text → ℕ
first_or n [] = n
first_or n (b ∷ s) = b

false-not-true : ¬ (false ≡ true)
false-not-true h = cc

HasForm-IsDecimal : (b : ℕ) (s : Text) → (b == b'.') ≡ false → HasForm (b ∷ s) → IsDecimal (b ∷ s)
unfolding first_or
HasForm-IsDecimal b s h (digits d) = whole (d, λ c. cc)
HasForm-IsDecimal b s h (dotted [] f p d n) =
    absurd (false-not-true (sym h ∙ (==_iff b b'.').1 (ap (first_or 0) p)))
HasForm-IsDecimal b s h (dotted (c ∷ i) f p d n) = fraction (c ∷ i) f p (d, λ c. cc) n

strict_float-IsDecimal :
    (b : ℕ) (s : Text) → validate_strict_float (b ∷ s) ≡ ok tt → IsDecimal (b ∷ s)
unfolding validate_strict_float
strict_float-IsDecimal b s h = elim (Bool-cases (b == b'.')) [
  | inl e ↦ ground arith
  | inr e ↦
      let valid : validate_float_from 0 false (b ∷ s) ≡ ok tt =
        sym (ap (λ c. if c then err multiple_dots else validate_float_from 0 false (b ∷ s)) e)
        ∙ h in
      HasForm-IsDecimal b s e (float_HasForm (b ∷ s) tt valid)
]

below_refused : (x v : F32) → lt x (of_ℕ 0) ≡ true → ¬ (check_range x ≡ ok v)
unfolding check_range
below_refused x v p h = ground arith

above_refused : (x v : F32) → lt (of_ℕ 50000) x ≡ true → ¬ (check_range x ≡ ok v)
unfolding check_range rpm_sanity_ceiling
above_refused x v p h = ground arith

kept :
    (z : ℤ) (v : F32)
    → lt (fin z) (of_ℕ 0) ≡ false
    → lt (of_ℕ 50000) (fin z) ≡ false
    → check_range (fin z) ≡ ok v
    → v ≡ fin z
unfolding check_range rpm_sanity_ceiling
kept z v p q h = ground arith

of_ℕ_not_nan : (n : ℕ) → is_nan (of_ℕ n) ≡ false
unfolding of_ℕ
of_ℕ_not_nan n = quot-not_nan (pos (n * one)) 1

-- The result of a check of the range lies in it.
check_range_lem :
    (x v : F32)
    → check_range x ≡ ok v
    → (v ≡ x) × (is_finite v ≡ true) × Le (of_ℕ 0) v × Le v (of_ℕ 50000)
unfolding check_range
check_range_lem nan v h = cc
check_range_lem pos_inf v h = cc
check_range_lem neg_inf v h = cc
check_range_lem (fin z) v h = elim (Bool-cases (lt (fin z) (of_ℕ 0))) [
  | inl p ↦ absurd (below_refused (fin z) v p h)
  | inr p ↦ elim (Bool-cases (lt (of_ℕ 50000) (fin z))) [
    | inl q ↦ absurd (above_refused (fin z) v q h)
    | inr q ↦
        let e : v ≡ fin z = kept z v p q h in
        (
          e,
          rw e refl,
          rw e (not-lt→le (fin z) (of_ℕ 0) refl (of_ℕ_not_nan 0) p),
          rw e (not-lt→le (of_ℕ 50000) (fin z) (of_ℕ_not_nan 50000) refl q),
        )
  ]
]

-- A text that is accepted is digits, or digits, a dot and digits; the result is the float that the
-- text is read as, finite and from 0 to 50000.
pub parse_rpm_sound :
    (s : Text) (v : F32)
    → parse_rpm s ≡ ok v
    → IsDecimal s × (v ≡ parse_f32 s) × (is_finite v ≡ true) × Le (of_ℕ 0) v × Le v (of_ℕ 50000)
unfolding parse_rpm
parse_rpm_sound [] v h = cc
parse_rpm_sound (b ∷ s) v h =
    let valid : validate_strict_float (b ∷ s) ≡ ok tt =
      >>-eq-ok (validate_strict_float (b ∷ s)) (check_range (parse_f32 (b ∷ s))) v h in
    let checked : check_range (parse_f32 (b ∷ s)) ≡ ok v = rw valid at h in
    let (e, f, l, u) = check_range_lem (parse_f32 (b ∷ s)) v checked in
    (strict_float-IsDecimal b s valid, e, f, l, u)

digit_not_dot : (b : ℕ) → is_digit b ≡ true → (b == b'.') ≡ false
digit_not_dot b h = ground arith

decimal_behind :
    (acc places : ℕ) (f : Text)
    → Digits f
    → decimal_from acc places true f ≡ (value_from acc f, places + length f)
unfolding decimal_from value_from
decimal_behind acc places [] d = ap (λ n. (acc, n)) (omega arith)
decimal_behind acc places (b ∷ f) d =
    rw (decimal_from, digit_not_dot b d.0)
      (decimal_behind (acc * 10 + (b - b'0')) (places + 1) f d.1
        ∙ ap (λ n. (value_from (acc * 10 + (b - b'0')) f, n)) (omega arith))

decimal_before :
    (acc : ℕ) (i f : Text)
    → Digits i
    → decimal_from acc 0 false (i ++ (b'.' ∷ f)) ≡ decimal_from (value_from acc i) 0 true f
unfolding decimal_from value_from
decimal_before acc [] f d = refl
decimal_before acc (b ∷ i) f d =
    rw (decimal_from, digit_not_dot b d.0) (decimal_before (acc * 10 + (b - b'0')) i f d.1)

zero_add : (n : ℕ) → 0 + n ≡ n
zero_add n = omega arith

-- Digits, a dot and digits are read as the float nearest to the number of all the digits over the
-- power of ten for those behind the dot.
pub parse_f32-fraction :
    (i f : Text)
    → Digits i
    → Digits f
    → parse_f32 (i ++ (b'.' ∷ f)) ≡ ratio (value_from (value_from 0 i) f) (10 ^ length f)
unfolding parse_f32
parse_f32-fraction i f p q =
    ap (λ d. ratio d.0 (10 ^ d.1)) (decimal_before 0 i f p ∙ decimal_behind (value_from 0 i) 0 f q)
    ∙ ap (λ n. ratio (value_from (value_from 0 i) f) (10 ^ n)) (zero_add (length f))
