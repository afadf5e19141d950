-- ===== src/Control/Adapter/Laws.antt =====
-- The adapter: the band between its thresholds keeps the decision.
use fand.Prelude.{◌≡◌, true, false, refl, if◌then◌else◌, arith}
use fand.F32.{F32, sub, ratio, le, lt, is_finite}
use fand.F32.Order.{Le, le_trans, le→not-lt}
use fand.F32.Arith.{zero_f32, add_mono, mul_mono}
use fand.Control.Adapter.{
  forced_minimum, auto, AppleSiliconAdapter, engage_threshold, disengage_threshold, decide,
}

-- 0.05 and 0.10 as floats.
ratios :
    Le (ratio 5 100) (ratio 10 100)
    × (is_finite (ratio 5 100) ≡ true)
    × (is_finite (ratio 10 100) ≡ true)
unfolding ratio
ratios = (refl, refl, refl)

-- The engage threshold is at or below the disengage threshold, in rounded arithmetic too.
pub engage-le-disengage :
    (low high : F32)
    → is_finite low ≡ true
    → is_finite (sub high low) ≡ true
    → Le zero_f32 (sub high low)
    → Le (engage_threshold low high) (disengage_threshold low high)
unfolding engage_threshold disengage_threshold
engage-le-disengage low high f g h =
    add_mono low _ _ f
      (mul_mono (sub high low) (ratio 5 100) (ratio 10 100) g h ratios.1 ratios.2 ratios.0)

module _ (low high : F32) (f : is_finite low ≡ true) (g : is_finite (sub high low) ≡ true)
    (h : Le zero_f32 (sub high low)) where
  -- No target engages and disengages at once.
  engaged-not-disengaged :
      (target : F32)
      → Le target (engage_threshold low high)
      → lt (disengage_threshold low high) target ≡ false
  engaged-not-disengaged target e =
      le→not-lt target _ (le_trans target _ _ e (engage-le-disengage low high f g h))

  -- For a finite minimum and a finite span that is not negative, the decision from either mode is
  -- `forced_minimum` at or below the engage threshold, `auto` above the disengage threshold, and
  -- the mode that it had for any other target.
  pub decide_lem :
      (a : AppleSiliconAdapter) (target : F32)
      → (decide a target low high).current ≡ (
          if le target (engage_threshold low high)
          then forced_minimum
          else if lt (disengage_threshold low high) target
          then auto
          else a.current)
  unfolding decide
  decide_lem a target = ground (arith, engaged-not-disengaged target)

  -- For a finite minimum and a finite span that is not negative, a second decision on the same
  -- target changes nothing.
  pub decide_steady :
      (a : AppleSiliconAdapter) (target : F32)
      → decide (decide a target low high) target low high ≡ decide a target low high
  unfolding decide
  decide_steady a target = ground (arith, engaged-not-disengaged target)
