-- ===== src/Control/Panic.antt =====
-- src/control/panic.rs: the latch that forces full speed above a temperature.
-- An `Instant` is its nanoseconds; `duration_since` stops at 0.
pub mod Laws
use fand.Prelude.{
  ℕ, ◌+◌, ◌-◌, ◌/◌, Bool, true, false, not, ◌&&◌, Option, none, some, ltb, leb, if◌then◌else◌,
}
use fand.F32.{F32, lt, le}

pub data PanicAction : Type 0 where
  force_fx_mx passthrough : PanicAction

pub record PanicState : Type 0 where
  pub latched : Bool
  pub consecutive_above : ℕ  -- u8
  pub entered_at : Option ℕ

unfoldable pub new : PanicState
new = record { latched = false; consecutive_above = 0; entered_at = none }

-- `saturating_add(1)` on a u8.
abbrev pub saturating_suc : ℕ → ℕ
saturating_suc n = if ltb n 255 then n + 1 else 255

-- The first `if`: the count of readings above the threshold in a row.
count : PanicState → Bool → PanicState
count s above = record s {
  consecutive_above = if above then saturating_suc s.consecutive_above else 0;
}

-- The second `if`: two in a row set the latch.
latch : PanicState → ℕ → PanicState
latch s now =
    if not s.latched && leb 2 s.consecutive_above
    then record s { latched = true; entered_at = some now }
    else s

-- Whether the latch was entered `hold` seconds ago or more.
hold_over : Option ℕ → ℕ → ℕ → Bool
hold_over none hold now = false
hold_over (some entered) hold now = leb hold ((now - entered) / 1_000_000_000)

-- The rest: the latch is let go only at or below the threshold and after the hold.
release : PanicState → Bool → ℕ → ℕ → PanicState × PanicAction
unfolding hold_over
release s at_or_below hold now =
    if s.latched
    then if at_or_below && hold_over s.entered_at hold now
      then (record { latched = false; consecutive_above = 0; entered_at = none }, passthrough)
      else (s, force_fx_mx)
    else (s, passthrough)

unfoldable pub check : PanicState → F32 → F32 → ℕ → ℕ → PanicState × PanicAction
unfolding count latch release
check s raw threshold hold now =
    release (latch (count s (lt threshold raw)) now) (le raw threshold) hold now
