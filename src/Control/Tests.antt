-- ===== src/Control/Tests.antt =====
-- The controller at concrete inputs.
use fand.Prelude.{
  ℕ, zero, suc, ◌*◌, ◌^◌, ◌<◌, ◌≡◌, ◌⊎◌, refl, true, false, none, some, List, [], ◌∷◌, replicate,
  All, arith,
}
use fand.Prelude.Int.{pos}
use fand.F32
use fand.F32.{F32, nan, fin, one, of_ℕ, ratio, is_finite, as_u32, round, sub, neg, mul, le, lt}
use fand.F32.Order.{Le}
use fand.Control.Fusion.{max, fuse}
use fand.Control.Curve.{Breakpoint}
use fand.Control.Clamp
use fand.Control.Clamp.{effective_safe_min, was_clamped}
use fand.Control.Loop
use fand.Control.Loop.{FanControlState, Settings, Reading, any_valid, tick}
use fand.Control.Loop.Laws.{InRange, IsValid, new-IsValid, tick-IsValid}
use fand.Control.Loop.Safety.{tick_result, tick_twice_hot, run, run_blind}

abbrev low : F32
low = fin (pos (2317 * one))

abbrev high : F32
high = fin (pos (7826 * one))

abbrev degrees : ℕ → F32
degrees n = fin (pos (n * one))

-- A fan of a MacBook Pro, from 2317 to 7826 turns a minute.
abbrev fan : FanControlState
fan = Loop.new 0 low high (degrees 2400) (degrees 40)

abbrev first : Breakpoint
first = (degrees 40, 2317)

abbrev others : List Breakpoint
others = (degrees 70, 5000) ∷ (degrees 90, 7826) ∷ []

abbrev half_second : F32
half_second = fin (pos (2 ^ 148))

abbrev settings : Settings
settings = record {
  fusion_mode = max;
  breakpoints = first ∷ others;
  alpha = fin (pos (2 ^ 147));
  hyst_up = degrees 1;
  hyst_down = degrees 3;
  ramp_down_rpm_per_s = degrees 600;
  panic_temp_c = degrees 95;
  panic_hold_s = 10;
}

-- The readings are those of two sensors, of which the second is a dropout.
abbrev reading : ℕ → ℕ → Reading
reading temp now = record {
  sensor_values = degrees temp ∷ nan ∷ [];
  sensor_dropouts = false ∷ true ∷ [];
  actual_dt_secs = half_second;
  now = now;
}

abbrev unseen : Reading
unseen = record {
  sensor_values = nan ∷ [];
  sensor_dropouts = true ∷ [];
  actual_dt_secs = half_second;
  now = 0;
}

envelope : Le (effective_safe_min none low) high
unfolding effective_safe_min
envelope = refl

tick_twice_hot_example :
    (tick none (tick none fan settings (reading 97 0)).0 settings (reading 96 500_000_000)).1
    ≡ of_ℕ (as_u32 (round high))
unfolding Loop.new tick Loop.sense Loop.is_blind Loop.shape Loop.finish fuse any_valid F32.max
tick_twice_hot_example =
    tick_twice_hot none fan settings (reading 97 0) (reading 96 500_000_000) envelope refl refl refl
      refl refl

fan-IsValid : IsValid none fan
fan-IsValid = new-IsValid none 0 low high (degrees 2400) (degrees 40) envelope refl

tick-IsValid_example : IsValid none (tick none fan settings (reading 97 0)).0
tick-IsValid_example = tick-IsValid none fan settings (reading 97 0) fan-IsValid

tick_result_example :
    let (s', rpm) = tick none fan settings (reading 50 0) in
    ((target : Clamp.ClampedRpm) × (s'.final_target ≡ some target)
      × (rpm ≡ of_ℕ target.value)
      × InRange none low high target.value)
    ⊎ ((any_valid (false ∷ true ∷ []) ≡ false)
        × (60 < s'.last_known_good_age_ticks)
        × (rpm ≡ high)
        × (s'.final_target ≡ none))
unfolding Loop.new
tick_result_example = tick_result none fan settings (reading 50 0) envelope

unseen_blind :
    (n : ℕ) → All (λ (r : Reading). any_valid r.sensor_dropouts ≡ false) (replicate n unseen)
unfolding any_valid
unseen_blind zero = tt
unseen_blind (suc n) = (refl, unseen_blind n)

run_blind_example :
    (tick none (run none fan settings (replicate 60 unseen)) settings unseen).1 ≡ high
unfolding any_valid Loop.new
run_blind_example =
    run_blind none fan settings (replicate 60 unseen) unseen (unseen_blind 60) refl (omega arith)
