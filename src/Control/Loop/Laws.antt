-- ===== src/Control/Loop/Laws.antt =====
-- One tick of a fan: the invariant that it keeps, its bounds, and its two ways to full speed.
use fand.Prelude.{ℕ, ◌≤◌, ◌≡◌, inl, inr, refl, true, Option, none, some, arith, Bool-cases}
use fand.F32.{F32, is_finite, round, as_u32}
use fand.F32.Order.{Le}
use fand.Control.Fusion.Laws.{fuse-is_finite}
use fand.Control.Panic.Laws as PanicLaws
use fand.Control.Clamp.{ClampedRpm, effective_safe_min}
use fand.Control.Clamp.Laws.{new_bounds}
use fand.Control.Loop.{
  FanControlState, Settings, Reading, new, reinit_bumpless, tick, sense, shape, finish, is_blind,
}

-- The target lies between the rounded floor and the rounded maximum.
abbrev pub InRange : Option F32 → F32 → F32 → ℕ → Type 0
InRange env low high n =
    (as_u32 (round (effective_safe_min env low)) ≤ n) × (n ≤ as_u32 (round high))

abbrev pub TargetInRange : Option F32 → F32 → F32 → Option ClampedRpm → Type 0
TargetInRange env low high none = Unit {0}
TargetInRange env low high (some c) = InRange env low high c.value

pub record IsValid (env : Option F32) (s : FanControlState) : Type 0 where
  pub envelope : Le (effective_safe_min env s.min_rpm) s.max_rpm
  pub known_good : is_finite s.last_known_good_temp ≡ true
  pub panic : PanicLaws.IsValid s.panic_state
  pub target : TargetInRange env s.min_rpm s.max_rpm s.final_target
  pub age : s.last_known_good_age_ticks ≤ 4294967295

-- A new fan is valid, where the reading that it starts from is finite.
pub new-IsValid :
    (env : Option F32) (index : ℕ) (low high actual temp : F32)
    → Le (effective_safe_min env low) high
    → is_finite temp ≡ true
    → IsValid env (new index low high actual temp)
unfolding new
new-IsValid env index low high actual temp h f = record {
  envelope = h;
  known_good = f;
  panic = PanicLaws.new-IsValid;
  target = tt;
  age = omega arith;
}

-- A bumpless restart keeps the invariant, and with it the panic latch as it was.
pub reinit_bumpless-IsValid :
    (env : Option F32) (s : FanControlState) (actual temp : F32)
    → IsValid env s
    → IsValid env (reinit_bumpless s actual temp)
      × ((reinit_bumpless s actual temp).panic_state ≡ s.panic_state)
unfolding reinit_bumpless
reinit_bumpless-IsValid env s actual temp v = (
  record {
    envelope = v.envelope;
    known_good = v.known_good;
    panic = v.panic;
    target = v.target;
    age = v.age;
  },
  refl,
)

sense-IsValid :
    (env : Option F32) (s : FanControlState) (c : Settings) (r : Reading)
    → IsValid env s
    → IsValid env (sense s c r)
unfolding sense
sense-IsValid env s c r v =
    let raw =
      fuse-is_finite r.sensor_values r.sensor_dropouts c.fusion_mode s.last_known_good_temp
        v.known_good in
    record {
      envelope = v.envelope;
      known_good = ground arith;
      panic = v.panic;
      target = v.target;
      age = ground arith;
    }

shape-IsValid :
    (env : Option F32) (s : FanControlState) (c : Settings) (r : Reading)
    → IsValid env s
    → IsValid env (shape s c r)
unfolding shape
shape-IsValid env s c r v = record {
  envelope = v.envelope;
  known_good = v.known_good;
  panic = v.panic;
  target = v.target;
  age = v.age;
}

finish-IsValid :
    (env : Option F32) (s : FanControlState) (c : Settings) (r : Reading)
    → IsValid env s
    → IsValid env (finish env s c r).0
unfolding finish
finish-IsValid env s c r v = record {
  envelope = v.envelope;
  known_good = v.known_good;
  panic =
      PanicLaws.check-IsValid s.panic_state s.driver_temp_raw c.panic_temp_c c.panic_hold_s r.now
        v.panic;
  target = new_bounds env _ s.min_rpm s.max_rpm v.envelope;
  age = v.age;
}

-- Every tick of a valid state gives a valid one, whatever the sensors, the configuration and the
-- clock give.
pub tick-IsValid :
    (env : Option F32) (s : FanControlState) (c : Settings) (r : Reading)
    → IsValid env s
    → IsValid env (tick env s c r).0
unfolding tick
tick-IsValid env s c r v =
    let sensed = sense-IsValid env s c r v in
    elim (Bool-cases (is_blind (sense s c r) r)) [
      | inl e ↦ rw e sensed
      | inr e ↦ rw e (
          finish-IsValid env (shape (sense s c r) c r) c r
            (shape-IsValid env (sense s c r) c r sensed))
    ]
