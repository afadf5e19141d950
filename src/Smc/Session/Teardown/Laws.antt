-- ===== src/Smc/Session/Teardown/Laws.antt =====
-- The teardown: it runs once, it always comes to its end, and nothing is asked of the kernel after.
use fand.Prelude.{
  ℕ, ◌%◌, ◌≡◌, ◌≢◌, refl, sym, ◌∙◌, true, false, Option, none, some, List, [], ◌∷◌, inr, arith,
}
use fand.F32.{F32}
use fand.Smc.Keys.{fan_mode, fourcc, type_flt}
use fand.Smc.Cache
use fand.Smc.Cache.Laws
use fand.Smc.Action.{Action, continue, ◌>>=◌, ◌>>◌, ok, ask, modify, ignore}
use fand.Smc.Ffi.{Device, SmcConnection, close}
use fand.Smc.Ffi.Read.{read_f32}
use fand.Smc.Ffi.Write.{force_write_auto_mode, force_write_ftst_zero}
use fand.Smc.Ffi.Cached.{force_write_auto_mode_blocked, fan_mode_last, read_f32-Knows}
use fand.Smc.Unlock.{DiagnosticUnlockSession}
use fand.Smc.Session.{WriteSession, on_conn, on_writer, set_unlock}
use fand.Smc.Session.Unlocking.{release_from, release_diagnostic_unlock}
use fand.Smc.Session.Teardown.{release_fans, checklist, teardown}

-- A step of the checklist: it never fails, and it leaves the flag of the teardown alone.
record IsStep {D : Type 0} (m : Action (WriteSession D) Unit) : Type 0 where
  ends : (s : WriteSession D) → (m s).0 ≡ inr tt
  keeps_flag : (s : WriteSession D) → (m s).1.tear_down_once ≡ s.tear_down_once

module _ {D : Type 0} (sys : Device D) where
  release_fans-IsStep : (fans : List ℕ) → IsStep (release_fans sys fans)
  unfolding release_fans ◌>>=◌ ◌>>◌ continue ok ignore on_conn
  release_fans-IsStep [] = record { ends = λ s. refl; keeps_flag = λ s. refl }
  release_fans-IsStep (i ∷ is) =
      let rest = release_fans-IsStep is in
      let after = λ (s : WriteSession D). (on_conn (force_write_auto_mode sys i) s).1 in
      record { ends = λ s. rest.ends (after s); keeps_flag = λ s. rest.keeps_flag (after s) }

  release_from-IsStep : (u : Option DiagnosticUnlockSession) → IsStep (release_from sys u)
  unfolding release_from ◌>>=◌ ◌>>◌ continue ok ignore ask modify set_unlock on_writer
  release_from-IsStep none = record { ends = λ s. refl; keeps_flag = λ s. refl }
  release_from-IsStep (some u) = record { ends = λ s. refl; keeps_flag = λ s. refl }

  -- What is held of the unlock after its release.
  release_from-none :
      (u : Option DiagnosticUnlockSession) (s : WriteSession D)
      → s.unlock ≡ u
      → (release_from sys u s).1.unlock ≡ none
  unfolding release_from ◌>>=◌ ◌>>◌ continue ok ignore ask modify set_unlock on_writer
  release_from-none none s e = e
  release_from-none (some u) s e = refl

  -- The session before the connection is closed.
  unfoldable pub released : WriteSession D → WriteSession D
  released s =
      let s1 = (release_fans sys s.fans s).1 in
      let s2 = (release_diagnostic_unlock sys s1).1 in (on_conn (force_write_ftst_zero sys) s2).1

  pub checklist_lem :
      (s : WriteSession D)
      → checklist sys s ≡ (
        inr tt,
        record (released s) { conn = close sys (released s).conn; signal_thread = false },
      )
  unfolding checklist ◌>>=◌ ◌>>◌ continue ok ignore ask modify release_diagnostic_unlock released
  checklist_lem s =
      let s1 = (release_fans sys s.fans s).1 in
      rw ((release_fans-IsStep s.fans).ends s) (rw ((release_from-IsStep s1.unlock).ends s1) refl)

  released_flag : (s : WriteSession D) → (released s).tear_down_once ≡ s.tear_down_once
  unfolding released on_conn release_diagnostic_unlock ◌>>=◌ continue ask
  released_flag s =
      let s1 = (release_fans sys s.fans s).1 in
      (release_from-IsStep s1.unlock).keeps_flag s1 ∙ (release_fans-IsStep s.fans).keeps_flag s

  released-none : (s : WriteSession D) → (released s).unlock ≡ none
  unfolding released on_conn release_diagnostic_unlock ◌>>=◌ continue ask
  released-none s = let s1 = (release_fans sys s.fans s).1 in release_from-none s1.unlock s1 refl

  close-closed : (c : SmcConnection D) → (close sys c).connection_open ≡ false
  unfolding close
  close-closed c = ground arith

  module _ (s : WriteSession D) (first : s.tear_down_once ≡ false) where
    start : WriteSession D
    start = record s { tear_down_once = true }

    closes_connection : (teardown sys s).conn.connection_open ≡ false
    unfolding teardown start
    closes_connection = rw first (rw (checklist_lem start) (close-closed (released start).conn))

    drops_unlock : (teardown sys s).unlock ≡ none
    unfolding teardown start
    drops_unlock = rw first (rw (checklist_lem start) (released-none start))

    flag_set : (teardown sys s).tear_down_once ≡ true
    unfolding teardown start
    flag_set = rw first (rw (checklist_lem start) (released_flag start))

  -- A caller that does not win leaves everything as it is.
  teardown_lost : (s : WriteSession D) → s.tear_down_once ≡ true → teardown sys s ≡ s
  unfolding teardown
  teardown_lost s lost = rw lost refl

  -- The first teardown always comes to its end, whatever the kernel answers: the connection is
  -- closed, no unlock is held, the flag is set, and a second teardown changes nothing.
  pub teardown_ends :
      (s : WriteSession D)
      → s.tear_down_once ≡ false
      → ((teardown sys s).conn.connection_open ≡ false)
        × ((teardown sys s).unlock ≡ none)
        × ((teardown sys s).tear_down_once ≡ true)
        × (teardown sys (teardown sys s) ≡ teardown sys s)
  teardown_ends s first =
      let flag = flag_set s first in
      (closes_connection s first, drops_unlock s first, flag, teardown_lost (teardown sys s) flag)

  -- On a connection whose slot of the mode keys has a size other than 1, the first step of the
  -- teardown does nothing.
  release_fans_blocked :
      (fans : List ℕ) (data_size data_type : ℕ) (s : WriteSession D)
      → Cache.get s.conn.cache (fourcc (fan_mode 0)) ≡ some (data_size, data_type)
      → data_size ≢ 1
      → release_fans sys fans s ≡ (inr tt, s)
  unfolding release_fans ◌>>=◌ ◌>>◌ continue ok ignore on_conn
  release_fans_blocked [] size type s slot wrong = refl
  release_fans_blocked (i ∷ is) size type s slot wrong =
      let same =
        Cache.Laws.get_same_slot s.conn.cache (fourcc (fan_mode i)) (fourcc (fan_mode 0))
          (fan_mode_last i ∙ sym (fan_mode_last 0)) in
      rw (force_write_auto_mode_blocked sys i size type s.conn (same ∙ slot) wrong)
        (release_fans_blocked is size type s slot wrong)

  -- Once a float was read on the session's connection from a key that ends in the byte of 'd', the
  -- step of the teardown that releases the fans changes nothing, for any list of fans: the kernel is
  -- not called, every fan keeps the mode that it has, and the step ends as if all had been released.
  pub release_fans_after_read :
      (key : ℕ) (fans : List ℕ) (s : WriteSession D) (v : F32)
      → Cache.Laws.IsValid s.conn.cache
      → key % 256 ≡ 100
      → (on_conn (read_f32 sys key) s).0 ≡ inr v
      → release_fans sys fans (on_conn (read_f32 sys key) s).1
        ≡ (inr tt, (on_conn (read_f32 sys key) s).1)
  unfolding on_conn
  release_fans_after_read key fans s v valid last read =
      let c = (read_f32 sys key s.conn).1 in
      let same =
        Cache.Laws.get_same_slot c.cache (fourcc (fan_mode 0)) key (fan_mode_last 0 ∙ sym last) in
      release_fans_blocked fans 4 type_flt (record s { conn = c })
        (same ∙ read_f32-Knows sys key s.conn v valid read) (omega arith)
