-- ===== src/Control/Hysteresis/Laws.antt =====
-- Hysteresis: when a new speed is taken, and what is held otherwise.
use fand.Prelude.{◌≡◌, false, ◌||◌, refl, if◌then◌else◌, arith, List, [], ◌∷◌, All}
use fand.F32.{F32, sub, neg, lt, of_ℕ}
use fand.Control.Hysteresis.{rising, falling, held, HysteresisState, apply}

-- In every direction alike, the speed and the temperature are taken where the temperature has
-- risen by more than `up` or fallen by more than `down`; otherwise the state is as it was. The
-- speed returned is the one held.
pub apply_lem :
    (s : HysteresisState) (curve_rpm temp up down : F32)
    → let delta = sub temp s.last_temp in
      let out = lt up delta || lt delta (neg down) in
      let (s', rpm) = apply s curve_rpm temp up down in
      (rpm ≡ (if out then curve_rpm else s.hold_rpm))
      × (s'.hold_rpm ≡ rpm)
      × (s'.last_temp ≡ (if out then temp else s.last_temp))
      × (s'.direction ≡ (
          if out
          then (if lt (of_ℕ 0) delta then rising else if lt delta (of_ℕ 0) then falling else held)
          else s.direction))
unfolding apply
apply_lem s curve_rpm temp up down = ground arith

apply_in_band :
    (s : HysteresisState) (curve_rpm temp up down : F32)
    → lt up (sub temp s.last_temp) ≡ false
    → lt (sub temp s.last_temp) (neg down) ≡ false
    → apply s curve_rpm temp up down ≡ (s, s.hold_rpm)
unfolding apply
apply_in_band s curve_rpm temp up down p q = ground arith

-- The speeds returned for a run of curve speeds and temperatures.
unfoldable pub run : HysteresisState → F32 → F32 → List (F32 × F32) → List F32
run s up down [] = []
run s up down ((curve_rpm, temp) ∷ rest) =
    let (s', rpm) = apply s curve_rpm temp up down in rpm ∷ run s' up down rest

-- Over a run of temperatures none of which is above the last accepted one by more than `up` or
-- below it by more than `down`, the speed returned is the held one, whatever the curve gives.
pub band_holds :
    (s : HysteresisState) (up down : F32) (readings : List (F32 × F32))
    → All
        (λ (r : F32 × F32).
          (lt up (sub r.1 s.last_temp) ≡ false) × (lt (sub r.1 s.last_temp) (neg down) ≡ false))
        readings
    → All (λ rpm. rpm ≡ s.hold_rpm) (run s up down readings)
unfolding run
band_holds s up down [] h = tt
band_holds s up down ((curve_rpm, temp) ∷ rest) h =
    let e = apply_in_band s curve_rpm temp up down h.0.0 h.0.1 in
    rw e (refl, band_holds s up down rest h.1)
