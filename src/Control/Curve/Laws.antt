-- ===== src/Control/Curve/Laws.antt =====
-- The curve outside its breakpoints, and the segment that the search finds between them.
use fand.Prelude.{◌≡◌, refl, ap, true, false, inl, inr, List, [], ◌∷◌, ◌++◌, All, arith, Bool-cases}
use fand.F32.{F32, nan, le, lt, is_nan, of_ℕ}
use fand.F32.Order.{Le, not-le→lt, lt→not-le}
use fand.Control.Curve.{Breakpoint, interpolate, search_from, last_of, evaluate}

-- At or below the first breakpoint the speed is the first one's.
pub evaluate_below :
    (b : Breakpoint) (rest : List Breakpoint) (temp : F32)
    → Le temp b.0
    → evaluate (b ∷ rest) temp ≡ of_ℕ b.1
unfolding evaluate
evaluate_below b [] temp h = refl
evaluate_below b (c ∷ rest) temp h = rw h

-- At or above the last breakpoint, and above the first, the speed is the last one's.
pub evaluate_above :
    (b c : Breakpoint) (rest : List Breakpoint) (temp : F32)
    → lt b.0 temp ≡ true
    → Le (last_of b (c ∷ rest)).0 temp
    → evaluate (b ∷ c ∷ rest) temp ≡ of_ℕ (last_of b (c ∷ rest)).1
unfolding evaluate
evaluate_above b c rest temp p h = rw (lt→not-le b.0 temp p, h)

search_from_nan :
    (b : Breakpoint) (rest : List Breakpoint) → search_from b rest nan ≡ of_ℕ (last_of b rest).1
unfolding search_from last_of
search_from_nan b [] = refl
search_from_nan b (c ∷ rest) = search_from_nan c rest

le_nan_right : (a : F32) → le a nan ≡ false
le_nan_right a = ground arith

-- A temperature that is NaN gets the last speed, from every curve.
pub evaluate_nan :
    (b : Breakpoint) (rest : List Breakpoint) → evaluate (b ∷ rest) nan ≡ of_ℕ (last_of b rest).1
unfolding evaluate
evaluate_nan b [] = refl
evaluate_nan b (c ∷ rest) = rw (le_nan_right (last_of c rest).0) (search_from_nan c rest)

-- Two neighbours on the curve round the temperature.
pub record Segment (curve : List Breakpoint) (temp : F32) : Type 0 where
  pub before : List Breakpoint
  pub lo : Breakpoint
  pub hi : Breakpoint
  pub after : List Breakpoint
  pub on_curve : curve ≡ before ++ (lo ∷ hi ∷ after)
  pub above_lo : lt lo.0 temp ≡ true
  pub below_hi : Le temp hi.0

abbrev HasNumber : Breakpoint → Type 0
HasNumber b = is_nan b.0 ≡ false

lt_asymm : (a b : F32) → lt a b ≡ true → ¬ (lt b a ≡ true)
lt_asymm a b p q = ground arith

here :
    (b c : Breakpoint) (rest : List Breakpoint) (temp : F32)
    → lt b.0 temp ≡ true
    → Le temp c.0
    → Segment (b ∷ c ∷ rest) temp
here b c rest temp p q = record {
  before = [];
  lo = b;
  hi = c;
  after = rest;
  on_curve = refl;
  above_lo = p;
  below_hi = q;
}

further :
    (b : Breakpoint) {rest : List Breakpoint} {temp : F32}
    → Segment rest temp
    → Segment (b ∷ rest) temp
further b s = record {
  before = b ∷ s.before;
  lo = s.lo;
  hi = s.hi;
  after = s.after;
  on_curve = ap (λ l. b ∷ l) s.on_curve;
  above_lo = s.above_lo;
  below_hi = s.below_hi;
}

search_from_lem :
    (b : Breakpoint) (rest : List Breakpoint) (temp : F32)
    → is_nan temp ≡ false
    → All HasNumber rest
    → lt b.0 temp ≡ true
    → lt temp (last_of b rest).0 ≡ true
    → (s : Segment (b ∷ rest) temp) × (search_from b rest temp ≡ interpolate s.lo s.hi temp)
unfolding search_from last_of here further
search_from_lem b [] temp n a p q = absurd (lt_asymm b.0 temp p q)
search_from_lem b (c ∷ rest) temp n a p q = elim (Bool-cases (le temp c.0)) [
  | inl stop ↦ rw stop (here b c rest temp p stop, refl)
  | inr more ↦
      let (s, e) = search_from_lem c rest temp n a.1 (not-le→lt temp c.0 n a.0 more) q in
      rw more (further b s, e)
]

-- Between the first and the last breakpoint, where neither the temperature nor one after the first
-- on the curve is NaN, the value is interpolated between two neighbours on the curve, the lower
-- one below the temperature and the upper one at or above it.
pub evaluate_between :
    (b : Breakpoint) (rest : List Breakpoint) (temp : F32)
    → is_nan temp ≡ false
    → All HasNumber rest
    → lt b.0 temp ≡ true
    → lt temp (last_of b rest).0 ≡ true
    → (s : Segment (b ∷ rest) temp) × (evaluate (b ∷ rest) temp ≡ interpolate s.lo s.hi temp)
unfolding evaluate
evaluate_between b [] temp n a p q = absurd (lt_asymm b.0 temp p q)
evaluate_between b (c ∷ rest) temp n a p q =
    rw (lt→not-le b.0 temp p, lt→not-le temp (last_of c rest).0 q)
      (search_from_lem b (c ∷ rest) temp n a p q)
