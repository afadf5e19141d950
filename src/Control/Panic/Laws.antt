-- ===== src/Control/Panic/Laws.antt =====
-- The panic latch: its invariant, when it sets, how long it holds and when it lets go.
use fand.Prelude.{
  ℕ, ◌+◌, ◌*◌, ◌-◌, ◌/◌, ◌≤◌, ◌<◌, ◌≡◌, ◌≢◌, ◌↔◌, true, false, none, some, List, [], ◌∷◌, arith,
  All,
}
use fand.F32.{F32, le, lt}
use fand.F32.Order.{lt→not-le}
use fand.Control.Panic.{PanicState, PanicAction, force_fx_mx, passthrough, new, check}

-- The latch has an entry time exactly while it is set, and at most one reading is counted before.
pub record IsValid (s : PanicState) : Type 0 where
  pub entered : s.latched ≡ true → s.entered_at ≢ none
  pub free : s.latched ≡ false → s.entered_at ≡ none
  pub counted : s.latched ≡ false → s.consecutive_above ≤ 1
  pub narrow : s.consecutive_above ≤ 255

pub new-IsValid : IsValid new
unfolding new
new-IsValid = ground arith

-- Every check keeps the invariant.
pub check-IsValid :
    (s : PanicState) (raw threshold : F32) (hold now : ℕ)
    → IsValid s
    → IsValid (check s raw threshold hold now).0
unfolding check
check-IsValid s raw threshold hold now v = ground arith

-- Two readings above the threshold in a row force full speed, from any state.
pub check_twice_forces :
    (s : PanicState) (raw raw' threshold : F32) (hold now now' : ℕ)
    → lt threshold raw ≡ true
    → lt threshold raw' ≡ true
    → let s' = (check s raw threshold hold now).0 in
      ((check s' raw' threshold hold now').1 ≡ force_fx_mx)
      × ((check s' raw' threshold hold now').0.latched ≡ true)
unfolding check
check_twice_forces s raw raw' threshold hold now now' p q =
    ground (arith, lt→not-le threshold raw p, lt→not-le threshold raw' q)

-- One reading above the threshold does not: the latch stays free after a reading at or below it.
pub check_once_passes :
    (s : PanicState) (raw raw' threshold : F32) (hold now now' : ℕ)
    → IsValid s
    → (check s raw threshold hold now).1 ≡ passthrough
    → lt threshold raw ≡ false
    → (check (check s raw threshold hold now).0 raw' threshold hold now').1 ≡ passthrough
unfolding check
check_once_passes s raw raw' threshold hold now now' v p q = ground arith

-- A check of a set latch, entered at `entered`, lets it go exactly at a reading at or below the
-- threshold and `hold` whole seconds or more after `entered`.
pub check-latched :
    (s : PanicState) (raw threshold : F32) (hold now entered : ℕ)
    → s.latched ≡ true
    → s.entered_at ≡ some entered
    → ((check s raw threshold hold now).1 ≡ passthrough)
      ↔ ((le raw threshold ≡ true) × (hold ≤ (now - entered) / 1_000_000_000))
unfolding check
check-latched s raw threshold hold now entered l e = ground arith

-- A run of checks, with the action of each.
unfoldable pub run : PanicState → F32 → ℕ → List (F32 × ℕ) → PanicState × List PanicAction
run s threshold hold [] = (s, [])
run s threshold hold ((raw, now) ∷ rest) =
    let (s', action) = check s raw threshold hold now in
    let (s'', actions) = run s' threshold hold rest in (s'', action ∷ actions)

latched_step :
    (s : PanicState) (raw threshold : F32) (hold now entered : ℕ)
    → s.latched ≡ true
    → s.entered_at ≡ some entered
    → entered ≤ now
    → now < entered + hold * 1_000_000_000
    → ((check s raw threshold hold now).0.latched ≡ true)
      × ((check s raw threshold hold now).0.entered_at ≡ some entered)
      × ((check s raw threshold hold now).1 ≡ force_fx_mx)
unfolding check
latched_step s raw threshold hold now entered l e o h = ground arith

-- A set latch that was entered at `entered` stays set and forces full speed at every check of a
-- run whose times lie between then and `hold` seconds later, whatever is read.
pub latch_holds :
    (s : PanicState) (threshold : F32) (hold entered : ℕ) (readings : List (F32 × ℕ))
    → s.latched ≡ true
    → s.entered_at ≡ some entered
    → All (λ (r : F32 × ℕ). (entered ≤ r.1) × (r.1 < entered + hold * 1_000_000_000)) readings
    → ((run s threshold hold readings).0.latched ≡ true)
      × All (λ a. a ≡ force_fx_mx) (run s threshold hold readings).1
unfolding run
latch_holds s threshold hold entered [] l e h = (l, tt)
latch_holds s threshold hold entered ((raw, now) ∷ rest) l e h =
    let (l', e', forced) = latched_step s raw threshold hold now entered l e h.0.0 h.0.1 in
    let (last, all) =
      latch_holds (check s raw threshold hold now).0 threshold hold entered rest l' e' h.1 in
    (last, (forced, all))
