-- ===== src/Control/Curve/Exact.antt =====
-- The curve passes through its breakpoints, with no rounding error.
use fand.Prelude.{
  ℕ, suc, ◌≤◌, ◌*◌, ◌≡◌, ◌⊎◌, inl, inr, refl, sym, ap, ◌∙◌, true, false, List, [], ◌∷◌, arith, ltb,
  ltb→lt, zero, ◌<◌,
}
use native.Mathlib.Nat.{mul-le-mul_right}
use fand.Prelude.Int.{pos, negsuc}
use mathlib.Core.List.{Memᴰ}
use mathlib.Core.Bool.{false≢true}
use fand.F32.{
  F32, fin, nan, pos_inf, neg_inf, one, u32_max, overflow, positive, lt, is_nan, is_finite, sub,
  of_ℕ,
}
use fand.F32.Rounding.{round_mag}
use fand.F32.Monotone.{round_mag_mono}
use fand.F32.Order.{Le, lt→not-le, le_refl, le→not-lt}
use fand.F32.Idempotent.{of_ℕ-IsRounded}
use fand.F32.Unit.{one-mul, zero-mul, zero-add, one-sub-one, div_self}
use fand.Control.Curve.{Breakpoint, epsilon, interpolate, search_from, last_of, evaluate}
use fand.Control.Curve.Laws.{evaluate_below, evaluate_above}
use mathlib.Core.Path.{subst}

largest : ltb (round_mag (u32_max * one) 1) overflow ≡ true
unfolding round_mag
largest = refl

finite_positive : (m : ℕ) → m < overflow → is_finite (positive m) ≡ true
finite_positive m h = ground arith

of_ℕ-positive : (n : ℕ) → of_ℕ n ≡ positive (round_mag (n * one) 1)
unfolding of_ℕ
of_ℕ-positive n = refl

-- A 32-bit number is a finite float.
pub of_ℕ-is_finite : (n : ℕ) → n ≤ u32_max → is_finite (of_ℕ n) ≡ true
of_ℕ-is_finite n h =
    let le : n * one ≤ u32_max * one = mul-le-mul_right one h in
    rw (of_ℕ-positive n) (
      finite_positive _ (
        omega
          (arith, ltb→lt _ _ largest, round_mag_mono (n * one) (u32_max * one) 1 (omega arith) le)))

gap-view : (d : F32) → is_finite d ≡ true → Le epsilon d → (n : ℕ) × (d ≡ fin (pos (suc n)))
gap-view (fin (pos zero)) f h = absurd (false≢true h)
gap-view (fin (pos (suc n))) f h = (n, refl)
gap-view (fin (negsuc n)) f h = ground arith
gap-view nan f h = absurd (false≢true f)
gap-view pos_inf f h = absurd (false≢true f)
gap-view neg_inf f h = absurd (false≢true f)

not_small : (n : ℕ) → Le epsilon (fin (pos (suc n))) → lt (fin (pos (suc n))) epsilon ≡ false
not_small n h = le→not-lt epsilon (fin (pos (suc n))) h

-- At the upper end of a segment the interpolation gives the upper speed.
lt→not_nan : (a b : F32) → lt a b ≡ true → is_nan a ≡ false
lt→not_nan a b h = ground arith

lt→not_nan_right : (a b : F32) → lt a b ≡ true → is_nan b ≡ false
lt→not_nan_right a b h = ground arith

lt_trans : (a b c : F32) → lt a b ≡ true → lt b c ≡ true → lt a c ≡ true
lt_trans a b c h k = ground arith

last_of-mem : (b : Breakpoint) (rest : List Breakpoint) → Memᴰ (last_of b rest) (b ∷ rest)
unfolding last_of
last_of-mem b [] = Memᴰ.head refl
last_of-mem b (c ∷ rest) = Memᴰ.tail (last_of-mem c rest)

interpolate_hi :
    (lo hi : Breakpoint)
    → is_finite (sub hi.0 lo.0) ≡ true
    → Le epsilon (sub hi.0 lo.0)
    → lo.1 ≤ u32_max
    → hi.1 ≤ u32_max
    → interpolate lo hi hi.0 ≡ of_ℕ hi.1
unfolding interpolate
interpolate_hi lo hi f h r s =
    let (n, e) = gap-view (sub hi.0 lo.0) f h in
    let a = of_ℕ-is_finite lo.1 r in
    let b = of_ℕ-is_finite hi.1 s in
    rw (e, not_small n (rw e at h), div_self n, one-sub-one, zero-mul (of_ℕ lo.1) a)
      (rw (one-mul (of_ℕ hi.1) b (of_ℕ-IsRounded hi.1))
        (zero-add (of_ℕ hi.1) b (of_ℕ-IsRounded hi.1)))

-- Strictly rising temperatures, at least an epsilon apart, and speeds of 32 bits.
unfoldable pub Rising : Breakpoint → List Breakpoint → Type 0
Rising b [] = (is_nan b.0 ≡ false) × (b.1 ≤ u32_max)
Rising b (c ∷ rest) =
    (lt b.0 c.0 ≡ true)
    × (is_finite (sub c.0 b.0) ≡ true)
    × Le epsilon (sub c.0 b.0)
    × (b.1 ≤ u32_max)
    × Rising c rest

Rising-head :
    (b : Breakpoint) (rest : List Breakpoint)
    → Rising b rest
    → (is_nan b.0 ≡ false) × (b.1 ≤ u32_max)
unfolding Rising
Rising-head b [] r = r
Rising-head b (c ∷ rest) (l, _, _, s, _) = (lt→not_nan b.0 c.0 l, s)

-- The first temperature is below all that follow.
Rising-lt :
    (b : Breakpoint) (rest : List Breakpoint) (h : Breakpoint)
    → Rising b rest
    → Memᴰ h rest
    → lt b.0 h.0 ≡ true
unfolding Rising
Rising-lt b [] h r t = elim t [ ]
Rising-lt b (c ∷ rest) h r (Memᴰ.head e) = rw e r.0
Rising-lt b (c ∷ rest) h r (Memᴰ.tail t) = lt_trans b.0 c.0 h.0 r.0 (Rising-lt c rest h r.4 t)

-- The last temperature is above all the others.
lt-last :
    (b : Breakpoint) (rest : List Breakpoint) (h : Breakpoint)
    → Rising b rest
    → Memᴰ h (b ∷ rest)
    → (h ≡ last_of b rest) ⊎ (lt h.0 (last_of b rest).0 ≡ true)
unfolding last_of Rising
lt-last b [] h r (Memᴰ.head e) = inl e
lt-last b [] h r (Memᴰ.tail t) = elim t [ ]
lt-last b (c ∷ rest) h r (Memᴰ.head e) =
    rw e (inr (Rising-lt b (c ∷ rest) (last_of c rest) r (last_of-mem c rest)))
lt-last b (c ∷ rest) h r (Memᴰ.tail t) = lt-last c rest h r.4 t

search_from-breakpoint :
    (b : Breakpoint) (rest : List Breakpoint) (h : Breakpoint)
    → Rising b rest
    → Memᴰ h rest
    → search_from b rest h.0 ≡ of_ℕ h.1
unfolding search_from Rising
search_from-breakpoint b [] h r t = elim t [ ]
search_from-breakpoint b (c ∷ rest) h r (Memᴰ.head e) =
    let (number, small) = Rising-head c rest r.4 in
    rw (e, le_refl c.0 number) (interpolate_hi b c r.1 r.2 r.3 small)
search_from-breakpoint b (c ∷ rest) h r (Memᴰ.tail t) =
    rw (lt→not-le c.0 h.0 (Rising-lt c rest h r.4 t)) (search_from-breakpoint c rest h r.4 t)

-- On a curve of strictly rising temperatures, finite steps apart of an epsilon or more, with
-- speeds of 32 bits, the value at each breakpoint's temperature is exactly that breakpoint's
-- speed.
pub evaluate-breakpoint :
    (b : Breakpoint) (rest : List Breakpoint) (h : Breakpoint)
    → Rising b rest
    → Memᴰ h (b ∷ rest)
    → evaluate (b ∷ rest) h.0 ≡ of_ℕ h.1
unfolding evaluate
evaluate-breakpoint b rest h r (Memᴰ.head e) =
    rw e (evaluate_below b rest b.0 (le_refl b.0 (Rising-head b rest r).0))
evaluate-breakpoint b [] h r (Memᴰ.tail t) = elim t [ ]
evaluate-breakpoint b (c ∷ rest) h r (Memᴰ.tail t) =
    let later = Rising-lt b (c ∷ rest) h r t in
    elim (lt-last b (c ∷ rest) h r (Memᴰ.tail t)) [
      | inl last ↦
          evaluate_above b c rest h.0 later (
            subst (λ (x : Breakpoint). Le x.0 h.0) last
              (le_refl h.0 (lt→not_nan_right b.0 h.0 later)))
          ∙ ap (λ (x : Breakpoint). of_ℕ x.1) (sym last)
      | inr before ↦
          rw (lt→not-le b.0 h.0 later, lt→not-le h.0 (last_of c rest).0 before)
            (search_from-breakpoint b (c ∷ rest) h r t)
    ]
