-- ===== src/Smc/Session/Commit/Laws.antt =====
-- What a commit that ended well has done.
use fand.Prelude.{
  ℕ, ◌≡◌, ◌≢◌, refl, ap, sym, ◌∙◌, Bool, true, false, Option, none, some, get_elem?, inr,
}
use fand.Prelude.Text.{codes}
use fand.F32
use fand.F32.{F32, sub, mul, ratio, le}
use fand.Control.Clamp.{ClampedRpm, as_f32}
use fand.Smc.Error.{Fan}
use fand.Smc.Keys.{fan_mode, fourcc}
use fand.Smc.Action.{continue, ◌>>=◌, ◌>>◌, fail, ask, ignore}
use fand.Smc.Action.Cases.{then_inr}
use fand.Smc.Ffi.{Device, SmcConnection, wall_clock_ns}
use fand.Smc.Ffi.Write.{write_u8}
use fand.Smc.Ffi.Read.{read_u8}
use fand.Smc.Ffi.Verified.{write_u8_verified}
use fand.Smc.Ffi.Verified.Laws.{write_u8_verified-inr}
use fand.Smc.Session.{WriteSession, on_conn, on_writer, clock, heartbeat, read_actual_rpm}
use fand.Smc.Session.Unlocking.{begin_diagnostic_unlock}
use fand.Smc.Session.Commit.{
  is_minimum_request, refuse_target, force_minimum, commit_request, commit_found, commit_set_fan,
}

module _ {D : Type 0} (sys : Device D) where
  refuse_never : (i : ℕ) (s : WriteSession D) → (refuse_target sys i s).0 ≢ inr tt
  unfolding refuse_target ◌>>=◌ continue ask fail clock on_conn wall_clock_ns
  refuse_never i s h = cc

  -- The mode's write went through, and the byte then read from the mode is 1.
  abbrev pub IsHeld : ℕ → SmcConnection D → Type 0
  IsHeld i c =
      let (written, after) = write_u8 sys (fan_mode i) 1 c in
      (written ≡ inr tt) × ((read_u8 sys (fourcc (fan_mode i)) after).0 ≡ inr 1)

  force_minimum-inr :
      (i : ℕ) (s : WriteSession D)
      → (force_minimum sys i s).0 ≡ inr tt
      → IsHeld i (wall_clock_ns sys s.conn).1
  unfolding force_minimum ◌>>=◌ continue ask on_writer
  force_minimum-inr i s h =
      let write = write_u8_verified sys (fan_mode i) 1 (codes "fan_mode_force_min") s.session_id in
      let (done, ended, whole) = then_inr (on_writer write) (heartbeat sys) s tt h in
      let (written, read) =
        write_u8_verified-inr sys (fan_mode i) 1 (codes "fan_mode_force_min") s.session_id
          (s.conn, s.round_trips) ended in
      (written, ap (λ r. r.0) read)

  commit_request-inr :
      (i : ℕ) (is_minimum : Bool) (s : WriteSession D)
      → (commit_request sys i is_minimum s).0 ≡ inr tt
      → (is_minimum ≡ true) × IsHeld i (wall_clock_ns sys s.conn).1
  unfolding commit_request
  commit_request-inr i true s h = (refl, force_minimum-inr i s h)
  commit_request-inr i false s h = absurd (refuse_never i s h)

  commit_found-inr :
      (i : ℕ) (target : F32) (found : Option Fan) (s : WriteSession D)
      → (commit_found sys i target found s).0 ≡ inr tt
      → (fan : Fan) × (found ≡ some fan)
        × (is_minimum_request fan target ≡ true)
        × ((begin_diagnostic_unlock sys s).0 ≡ inr tt)
        × IsHeld i
            (wall_clock_ns sys
              ((begin_diagnostic_unlock sys >> ignore (read_actual_rpm sys i)) s).1.conn).1
  unfolding commit_found fail
  commit_found-inr i target none s h = cc
  commit_found-inr i target (some fan) s h =
      let first = begin_diagnostic_unlock sys >> ignore (read_actual_rpm sys i) in
      let request = commit_request sys i (is_minimum_request fan target) in
      let (done, ended, whole) = then_inr first request s tt h in
      let (minimum, held) =
        commit_request-inr i (is_minimum_request fan target) (first s).1
          (sym (ap (λ r. r.0) whole) ∙ h) in
      let (unlocked, begun, rest) =
        then_inr (begin_diagnostic_unlock sys) (ignore (read_actual_rpm sys i)) s done ended in
      (fan, refl, minimum, begun, held)

  -- A commit that ends well was for a fan of the session, for a speed whose distance from the fan's
  -- minimum is at most 5% of the fan's span, all three rounded as floats are; the unlock ended well;
  -- and on the connection as the unlock and the reading of the speed left it, the write of 1 to the
  -- fan's mode went through and the mode was then read as 1.
  pub commit_set_fan-inr :
      (i : ℕ) (target : ClampedRpm) (s : WriteSession D)
      → (commit_set_fan sys i target s).0 ≡ inr tt
      → (fan : Fan) × (get_elem? s.fan_envelopes i ≡ some fan)
        × (le
              (F32.abs (sub (as_f32 target) fan.min_rpm))
              (mul (sub fan.max_rpm fan.min_rpm) (ratio 5 100))
            ≡ true)
        × ((begin_diagnostic_unlock sys s).0 ≡ inr tt)
        × IsHeld i
            (wall_clock_ns sys
              ((begin_diagnostic_unlock sys >> ignore (read_actual_rpm sys i)) s).1.conn).1
  unfolding commit_set_fan ◌>>=◌ continue ask is_minimum_request
  commit_set_fan-inr i target s h =
      commit_found-inr i (as_f32 target) (get_elem? s.fan_envelopes i) s h
