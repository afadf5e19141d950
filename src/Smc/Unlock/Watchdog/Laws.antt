-- ===== src/Smc/Unlock/Watchdog/Laws.antt =====
-- When the watchdog raises its signal: in time, and not too early.
use fand.Prelude.{
  ℕ, ◌+◌, ◌-◌, ◌/◌, ◌≤◌, ◌<◌, ◌≡◌, inl, inr, refl, false, List, [], ◌∷◌, leb, Bool-cases, arith,
  leb→le,
}
use fand.Smc.Unlock.{ms_since}
use fand.Smc.Unlock.Watchdog.{Poll, raised, watchdog_loop}

-- A poll that is `gap` nanoseconds after the time before it at most, with the flags down and no
-- new heartbeat.
abbrev pub IsQuiet : ℕ → ℕ → ℕ → Poll → Type 0
IsQuiet last gap before p =
    (p.stop ≡ false)
    × (p.release_in_progress ≡ false)
    × (p.last_heartbeat ≡ last)
    × (p.now ≤ before + gap)

abbrev pub AreQuiet : ℕ → ℕ → ℕ → List Poll → Type 0
AreQuiet last gap before [] = Unit
AreQuiet last gap before (p ∷ ps) = IsQuiet last gap before p × AreQuiet last gap p.now ps

abbrev pub end_of : ℕ → List Poll → ℕ
end_of before [] = before
end_of before (p ∷ ps) = end_of p.now ps

-- While no heartbeat comes and no teardown runs, and the polls are at most `gap` nanoseconds apart,
-- a watchdog that is polled until four seconds after the last heartbeat raises SIGTERM, and it does
-- so from four seconds on and less than `gap` after them.
pub watchdog_loop_raises :
    (last gap before : ℕ) (ps : List Poll)
    → AreQuiet last gap before ps
    → before < last + 4000000000
    → last + 4000000000 ≤ end_of before ps
    → (now : ℕ) × (watchdog_loop ps ≡ raised now)
      × (last + 4000000000 ≤ now)
      × (now < last + 4000000000 + gap)
unfolding watchdog_loop ms_since
watchdog_loop_raises last gap before [] quiet early late = absurd (omega arith)
watchdog_loop_raises last gap before (p ∷ ps) ((a, b, c, d), quiet) early late =
    elim (Bool-cases (leb 4000 ((p.now - last) / 1000000))) [
      | inl e ↦
          let due : 4000 ≤ (p.now - last) / 1000000 = leb→le _ _ e in
          rw a (rw b (rw c (rw e (p.now, refl, omega arith, omega arith))))
      | inr e ↦
          let wait : p.now < last + 4000000000 = ground arith in
          rw a (rw b (rw c (rw e (watchdog_loop_raises last gap p.now ps quiet wait late))))
    ]
