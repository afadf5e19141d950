-- ===== src/Control/Clamp/Laws.antt =====
-- `ClampedRpm`: the bounds of a target, the floor, and where the two conflict.
use fand.Prelude.{
  Bool, ◌≤◌, ◌<◌, ◌^◌, ◌≡◌, ◌↔◌, ◌⊎◌, inl, inr, refl, ap, true, false, not, ◌||◌, ◌&&◌, Option,
  none, some, arith, Bool-cases,
}
use fand.Prelude.Int.{pos}
use fand.F32.{F32, fin, lt, is_nan, is_finite, round, as_u32}
use fand.F32.Order.{Le, lt→le, le_refl}
use fand.F32.Arith.{round_mono, as_u32_mono}
use fand.Control.Clamp.{effective_safe_min, clamp, new, was_clamped}

and_right : (a b : Bool) → (a && b) ≡ true → b ≡ true
and_right a b h = ground arith

-- The floor is the hardware minimum or the operator's, and at or above both.
pub effective_safe_min_lem :
    (env : Option F32) (low : F32)
    → is_nan low ≡ false
    → Le low (effective_safe_min env low)
      × ((effective_safe_min env low ≡ low) ⊎ (env ≡ some (effective_safe_min env low)))
unfolding effective_safe_min
effective_safe_min_lem none low h = (le_refl low h, inl refl)
effective_safe_min_lem (some safe) low h = elim (Bool-cases (is_finite safe && lt low safe)) [
  | inl p ↦ rw p (lt→le low safe (and_right _ _ p), inr refl)
  | inr p ↦ rw p (le_refl low h, inl refl)
]

clamp_bounds :
    (raw low high : F32) → Le low high → Le low (clamp raw low high) × Le (clamp raw low high) high
unfolding clamp
clamp_bounds raw low high h = ground arith

clamp_inside :
    (raw low high : F32)
    → (not (is_finite raw) || (lt raw low || lt high raw)) ≡ false
    → clamp raw low high ≡ raw
unfolding clamp
clamp_inside raw low high c = ground arith

clamp_below : (raw low high : F32) → lt raw low ≡ true → clamp raw low high ≡ low
unfolding clamp
clamp_below raw low high c = ground arith

test_lem :
    (raw low high : F32)
    → is_nan low ≡ false
    → is_nan high ≡ false
    → ((not (is_finite raw) || (lt raw low || lt high raw)) ≡ false)
      ↔ ((is_finite raw ≡ true) × Le low raw × Le raw high)
test_lem raw low high h k = ground arith

round_half : as_u32 (round (fin (pos (2 ^ 148)))) ≡ 1
unfolding as_u32 round
round_half = refl

round_below_half : (x : F32) → lt x (fin (pos (2 ^ 148))) ≡ true → as_u32 (round x) ≡ 0
unfolding as_u32 round
round_below_half x h = ground arith

-- Whatever is asked for, NaN and the infinities too, the target lies between the rounded floor and
-- the rounded maximum, where the floor is at most the maximum.
pub new_bounds :
    (env : Option F32) (raw low high : F32)
    → Le (effective_safe_min env low) high
    → (as_u32 (round (effective_safe_min env low)) ≤ (new env raw low high).value)
      × ((new env raw low high).value ≤ as_u32 (round high))
unfolding new
new_bounds env raw low high h =
    let low' = effective_safe_min env low in
    let (above, below) = clamp_bounds raw low' high h in
    (as_u32_mono _ _ (round_mono low' _ above), as_u32_mono _ _ (round_mono _ high below))

-- Where neither the floor nor the maximum is NaN, no clamp is reported exactly for a request that
-- is finite and between floor and maximum.
pub was_clamped_lem :
    (env : Option F32) (raw low high : F32)
    → is_nan (effective_safe_min env low) ≡ false
    → is_nan high ≡ false
    → (was_clamped env raw low high ≡ false)
      ↔ ((is_finite raw ≡ true) × Le (effective_safe_min env low) raw × Le raw high)
unfolding was_clamped
was_clamped_lem env raw low high h k = test_lem raw (effective_safe_min env low) high h k

-- A request that gives no notice is only rounded.
pub new-unclamped :
    (env : Option F32) (raw low high : F32)
    → was_clamped env raw low high ≡ false
    → (new env raw low high).value ≡ as_u32 (round raw)
unfolding new was_clamped
new-unclamped env raw low high c =
    ap (λ (x : F32). as_u32 (round x)) (clamp_inside raw (effective_safe_min env low) high c)

-- Where the floor is half a revolution or more and at most the maximum, the target is not 0.
pub new_pos :
    (env : Option F32) (raw low high : F32)
    → Le (effective_safe_min env low) high
    → Le (fin (pos (2 ^ 148))) (effective_safe_min env low)
    → 0 < (new env raw low high).value
new_pos env raw low high h k =
    let half : F32 = fin (pos (2 ^ 148)) in
    let floor = effective_safe_min env low in
    omega (
      arith,
      new_bounds env raw low high h,
      round_half,
      as_u32_mono (round half) (round floor) (round_mono half floor k),
    )

-- Where the floor is below half a revolution, every request below the floor gives the target 0.
pub new_stops :
    (env : Option F32) (raw low high : F32)
    → lt raw (effective_safe_min env low) ≡ true
    → lt (effective_safe_min env low) (fin (pos (2 ^ 148))) ≡ true
    → (new env raw low high).value ≡ 0
unfolding new
new_stops env raw low high h k =
    rw (clamp_below raw (effective_safe_min env low) high h) (round_below_half _ k)

-- Where the floor is above the maximum, the target of every request below the floor is the rounded
-- floor, and the rounded maximum is at or below it.
pub new_above_max :
    (env : Option F32) (raw low high : F32)
    → lt high (effective_safe_min env low) ≡ true
    → lt raw (effective_safe_min env low) ≡ true
    → ((new env raw low high).value ≡ as_u32 (round (effective_safe_min env low)))
      × (as_u32 (round high) ≤ (new env raw low high).value)
unfolding new
new_above_max env raw low high h k =
    let floor = effective_safe_min env low in
    rw (clamp_below raw floor high k)
      (refl, as_u32_mono _ _ (round_mono high floor (lt→le high floor h)))
