-- ===== src/Smc/Signal/Laws.antt =====
-- How the thread of the signals ends the process, and what it asks of the kernel.
use fand.Prelude.{
  ℕ, ◌≡◌, refl, ap, sym, subst, Bool, true, false, not, ◌&&◌, ◌||◌, none, some, List, [], ◌∷◌, inr,
  if◌then◌else◌, arith, if_both,
}
use fand.Smc.Keys.{fan_mode, ftst}
use fand.Smc.Action.Invariant.{Keeps, ignore_keeps, then_keeps}
use fand.Smc.Ffi.{Device}
use fand.Smc.Ffi.Write.{force_write_auto_mode, force_write_ftst_zero}
use fand.Smc.Ffi.Invariant.{write_u8_keeps}
use fand.Smc.Ffi.Laws.{Trace, traced}
use fand.Smc.Session.Invariant.Safety.{AreSafeCalls, SafeSoFar, safe_kept}
use fand.Smc.Signal.{
  Signal, sig_hup, sig_info, sig_term, sig_int, other, SignalThread, has_exited, release_all,
  teardown_and_exit, handle, serve,
}

-- One of the signals that end the process.
abbrev pub ends_process : List Signal → Bool
ends_process [] = false
ends_process (sig_term ∷ sigs) = true
ends_process (sig_int ∷ sigs) = true
ends_process (sig_hup ∷ sigs) = ends_process sigs
ends_process (sig_info ∷ sigs) = ends_process sigs
ends_process (other ∷ sigs) = ends_process sigs

module _ {D : Type 0} (sys : Device D) where
  pub serve_lem :
      (sigs : List Signal) (t : SignalThread D)
      → t.exited ≡ none
      → ((serve sys sigs t).exited ≡ (
          if ends_process sigs then some (if t.state.release_in_progress then 1 else 0) else none))
        × ((serve sys sigs t).teardown_conn ≡ (
            if ends_process sigs && not t.state.release_in_progress
            then (release_all sys t.state.fans t.teardown_conn).1
            else t.teardown_conn))
        × ((serve sys sigs t).state.release_in_progress
            ≡ (t.state.release_in_progress || ends_process sigs))
  unfolding serve handle teardown_and_exit
  serve_lem [] t h = (h, refl, ground arith)
  serve_lem (sig_term ∷ sigs) t h = (ground arith, ground arith, ground arith)
  serve_lem (sig_int ∷ sigs) t h = (ground arith, ground arith, ground arith)
  serve_lem (sig_hup ∷ sigs) t h =
      rw (ap has_exited h)
        (serve_lem sigs (record t { state = record t.state { reload_requested = true } }) h)
  serve_lem (sig_info ∷ sigs) t h = rw (ap has_exited h) (serve_lem sigs t h)
  serve_lem (other ∷ sigs) t h = rw (ap has_exited h) (serve_lem sigs t h)

module _ {D : Type 0} (sys : Device D) where
  release_all_keeps : (fans : List ℕ) → Keeps (SafeSoFar sys) (release_all (traced sys) fans)
  unfolding release_all force_write_ftst_zero force_write_auto_mode
  release_all_keeps [] =
      ignore_keeps
        (write_u8_keeps (safe_kept sys) ftst 0 (λ ki. inr (ftst, 0, omega arith, refl, refl)))
  release_all_keeps (i ∷ is) =
      then_keeps
        (ignore_keeps (
          write_u8_keeps (safe_kept sys) (fan_mode i) 0
            (λ ki. inr (fan_mode i, 0, omega arith, refl, refl))))
        (release_all_keeps is)

  -- The thread writes nothing but bytes that are 0 or 1, to the mode of a fan or to `Ftst`, whatever
  -- signals come and whatever the kernel answers.
  pub serve_safe :
      (sigs : List Signal) (t : SignalThread (Trace × D))
      → t.exited ≡ none
      → AreSafeCalls t.teardown_conn.machine.0
      → AreSafeCalls (serve (traced sys) sigs t).teardown_conn.machine.0
  serve_safe sigs t h p =
      subst (SafeSoFar sys) (sym (serve_lem (traced sys) sigs t h).1)
        (if_both (SafeSoFar sys) _ ((release_all_keeps t.state.fans).kept t.teardown_conn p) p)
