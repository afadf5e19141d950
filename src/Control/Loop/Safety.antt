-- ===== src/Control/Loop/Safety.antt =====
-- A tick's result: its range, full speed on heat, and full speed without sensors.
use fand.Prelude.{
  ℕ, suc, ◌+◌, ◌≤◌, ◌<◌, ◌≡◌, ◌⊎◌, inl, inr, refl, ap, ◌∙◌, true, false, Option, some, List, [],
  ◌∷◌, length, All, arith, Bool-cases,
}
use fand.F32.{F32, lt, is_finite, round, as_u32, of_ℕ}
use fand.F32.Order.{Le, le_refl, le→not_nan}
use fand.Control.Fusion.{fuse}
use fand.Control.Panic
use fand.Control.Panic.{PanicAction, force_fx_mx}
use fand.Control.Panic.Laws.{check_twice_forces}
use fand.Control.Clamp
use fand.Control.Clamp.{ClampedRpm, effective_safe_min}
use fand.Control.Clamp.Laws.{new_bounds, new-unclamped, was_clamped_lem}
use fand.Control.Loop.{
  FanControlState, Settings, Reading, any_valid, tick, sense, shape, finish, is_blind, request,
  saturating_suc_u32,
}
use fand.Control.Loop.Laws.{InRange}

-- The fused temperature of a tick.
abbrev pub fused : FanControlState → Settings → Reading → F32
fused s c r = fuse r.sensor_values r.sensor_dropouts c.fusion_mode s.last_known_good_temp

blind_facts :
    (s : FanControlState) (r : Reading)
    → is_blind s r ≡ true
    → (any_valid r.sensor_dropouts ≡ false) × (60 < s.last_known_good_age_ticks)
unfolding is_blind
blind_facts s r e = ground arith

clamped_result :
    (env : Option F32) (s : FanControlState) (c : Settings) (r : Reading)
    → Le (effective_safe_min env s.min_rpm) s.max_rpm
    → let (s', rpm) = finish env s c r in
      (target : ClampedRpm) × (s'.final_target ≡ some target)
      × (rpm ≡ of_ℕ target.value)
      × InRange env s.min_rpm s.max_rpm target.value
unfolding finish
clamped_result env s c r h =
    let action =
      (Panic.check s.panic_state s.driver_temp_raw c.panic_temp_c c.panic_hold_s r.now).1 in
    (
      Clamp.new env (request s action) s.min_rpm s.max_rpm,
      refl,
      refl,
      new_bounds env (request s action) s.min_rpm s.max_rpm h,
    )

-- Where the floor is at most the maximum, a tick returns the target that it stores, between the
-- rounded floor and the rounded maximum; or it has no valid sensor, for more than 60 ticks now,
-- returns the maximum and leaves the stored target as it was.
pub tick_result :
    (env : Option F32) (s : FanControlState) (c : Settings) (r : Reading)
    → Le (effective_safe_min env s.min_rpm) s.max_rpm
    → let (s', rpm) = tick env s c r in
      ((target : ClampedRpm) × (s'.final_target ≡ some target)
        × (rpm ≡ of_ℕ target.value)
        × InRange env s.min_rpm s.max_rpm target.value)
      ⊎ ((any_valid r.sensor_dropouts ≡ false)
          × (60 < s'.last_known_good_age_ticks)
          × (rpm ≡ s.max_rpm)
          × (s'.final_target ≡ s.final_target))
unfolding tick sense shape
tick_result env s c r h = elim (Bool-cases (is_blind (sense s c r) r)) [
  | inl e ↦
      let (unseen, old) = blind_facts (sense s c r) r e in rw e (inr (unseen, old, refl, refl))
  | inr e ↦ rw e (inl (clamped_result env (shape (sense s c r) c r) c r h))
]

-- With a valid sensor the tick goes through all stages.
tick_seeing :
    (env : Option F32) (s : FanControlState) (c : Settings) (r : Reading)
    → any_valid r.sensor_dropouts ≡ true
    → tick env s c r ≡ finish env (shape (sense s c r) c r) c r
unfolding tick is_blind
tick_seeing env s c r h = rw h

-- The panic check of a tick with a valid sensor.
panic_of_tick :
    (env : Option F32) (s : FanControlState) (c : Settings) (r : Reading)
    → any_valid r.sensor_dropouts ≡ true
    → (tick env s c r).0.panic_state
      ≡ (Panic.check s.panic_state (fused s c r) c.panic_temp_c c.panic_hold_s r.now).0
panic_of_tick env s c r h = rw (tick_seeing env s c r h) (unfold finish shape sense in refl)

max_rpm-tick :
    (env : Option F32) (s : FanControlState) (c : Settings) (r : Reading)
    → ((tick env s c r).0.max_rpm ≡ s.max_rpm) × ((tick env s c r).0.min_rpm ≡ s.min_rpm)
unfolding tick finish shape sense
max_rpm-tick env s c r = elim (Bool-cases (is_blind (sense s c r) r)) [
  | inl e ↦ rw e (refl, refl)
  | inr e ↦ rw e (refl, refl)
]

-- The maximum, once clamped, is the maximum.
full_speed :
    (env : Option F32) (low high : F32)
    → Le (effective_safe_min env low) high
    → is_finite high ≡ true
    → (Clamp.new env high low high).value ≡ as_u32 (round high)
full_speed env low high h f = new-unclamped env high low high (
    (was_clamped_lem env high low high (le→not_nan _ high h).0 (le→not_nan _ high h).1).1
      (f, h, le_refl high (le→not_nan _ high h).1))

finish_forced :
    (env : Option F32) (s : FanControlState) (c : Settings) (r : Reading)
    → (Panic.check s.panic_state (fused s c r) c.panic_temp_c c.panic_hold_s r.now).1 ≡ force_fx_mx
    → (finish env (shape (sense s c r) c r) c r).1
      ≡ of_ℕ (Clamp.new env s.max_rpm s.min_rpm s.max_rpm).value
unfolding finish shape sense request
finish_forced env s c r e = rw e

-- Where the floor is at most the maximum and the maximum is finite: of two ticks in a row, each
-- with a valid sensor and a fused temperature above the panic temperature, the second returns the
-- rounded maximum, whatever curve, smoothing, hysteresis and slew limit say.
pub tick_twice_hot :
    (env : Option F32) (s : FanControlState) (c : Settings) (r r' : Reading)
    → Le (effective_safe_min env s.min_rpm) s.max_rpm
    → is_finite s.max_rpm ≡ true
    → any_valid r.sensor_dropouts ≡ true
    → any_valid r'.sensor_dropouts ≡ true
    → lt c.panic_temp_c (fused s c r) ≡ true
    → lt c.panic_temp_c (fused (tick env s c r).0 c r') ≡ true
    → (tick env (tick env s c r).0 c r').1 ≡ of_ℕ (as_u32 (round s.max_rpm))
tick_twice_hot env s c r r' h f v v' p p' =
    let t = (tick env s c r).0 in
    let (high, low) = max_rpm-tick env s c r in
    let (forced, _) =
      check_twice_forces s.panic_state (fused s c r) (fused t c r') c.panic_temp_c c.panic_hold_s
        r.now r'.now p p' in
    let again : (Panic.check t.panic_state (fused t c r') c.panic_temp_c c.panic_hold_s r'.now).1
        ≡ force_fx_mx =
      rw (panic_of_tick env s c r v) forced in
    rw (tick_seeing env t c r' v', finish_forced env t c r' again, high, low)
      (ap of_ℕ (full_speed env s.min_rpm s.max_rpm h f))

-- Readings of which every sensor is a dropout.
abbrev pub AllDropped : Reading → Type 0
AllDropped r = any_valid r.sensor_dropouts ≡ false

unfoldable pub run : Option F32 → FanControlState → Settings → List Reading → FanControlState
run env s c [] = s
run env s c (r ∷ rs) = run env (tick env s c r).0 c rs

age-tick :
    (env : Option F32) (s : FanControlState) (c : Settings) (r : Reading)
    → AllDropped r
    → (tick env s c r).0.last_known_good_age_ticks ≡ saturating_suc_u32 s.last_known_good_age_ticks
unfolding tick finish shape sense
age-tick env s c r h = elim (Bool-cases (is_blind (sense s c r) r)) [
  | inl e ↦ rw (e, h)
  | inr e ↦ rw (e, h)
]

tick_old :
    (env : Option F32) (s : FanControlState) (c : Settings) (r : Reading)
    → AllDropped r
    → 60 ≤ s.last_known_good_age_ticks
    → (tick env s c r).1 ≡ s.max_rpm
unfolding tick is_blind sense
tick_old env s c r h old = ground arith

saturating_step : (age n : ℕ) → 60 ≤ age + suc n → 60 ≤ saturating_suc_u32 age + n
saturating_step age n h = ground arith

-- Where the age of the last good reading and the ticks after it, all of them without a valid
-- sensor, come to 60 or more, a further tick without a valid sensor returns the maximum.
pub run_blind :
    (env : Option F32) (s : FanControlState) (c : Settings) (rs : List Reading) (r : Reading)
    → All AllDropped rs
    → AllDropped r
    → 60 ≤ s.last_known_good_age_ticks + length rs
    → (tick env (run env s c rs) c r).1 ≡ s.max_rpm
unfolding run
run_blind env s c [] r d h old = tick_old env s c r h (omega arith)
run_blind env s c (q ∷ rs) r d h old =
    let t = (tick env s c q).0 in
    let older : 60 ≤ t.last_known_good_age_ticks + length rs =
      rw (age-tick env s c q d.0) (saturating_step s.last_known_good_age_ticks (length rs) old) in
    run_blind env t c rs r d.1 h older ∙ (max_rpm-tick env s c q).0
