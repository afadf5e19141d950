-- ===== src/Smc/Session/Teardown/Releases.antt =====
-- The teardown reaches every fan, where the cache has the size of a mode.
use fand.Prelude.{
  ℕ, suc, zero, ◌≤◌, ◌≡◌, refl, ap, sym, subst, ◌∙◌, Bool, true, false, ◌==◌, some, List, [], ◌∷◌,
  ◌++◌, inl, inr, All, Any, Any-append_replicate, get_or, replicate, if◌then◌else◌, arith,
}
use fand.Smc.Keys.{fan_mode, ftst, fourcc, data_type}
use fand.Smc.Cache
use fand.Smc.Cache.Laws
use fand.Smc.Action.{continue, ◌>>=◌, ◌>>◌, ok, fail_if, ask, ignore}
use fand.Smc.Ffi.{SmcParamStruct, Device, SmcConnection, call_struct, close, wall_clock_ns}
use fand.Smc.Ffi.Read.{invalidate, read_key_info, read_key_info_or}
use fand.Smc.Ffi.Write.{
  smc_cmd_write_key, writing, write_sized, write_key, write_u8, force_write_auto_mode,
  force_write_ftst_zero,
}
use fand.Smc.Ffi.Cached.{fan_mode_last}
use fand.Smc.Ffi.Laws.{Trace, traced, close-trace, call_struct_calls, call_struct-cache, reaches}
use fand.Smc.Action.Cases.{bind_cases}
use fand.Smc.Ffi.Invariant.{IsKept, write_u8_keeps}
use fand.Smc.Session.{WriteSession, on_conn}
use fand.Smc.Session.Teardown.Laws.{released, checklist_lem}
use fand.Smc.Session.Unlocking.{release_diagnostic_unlock}
use fand.Smc.Session.Writes.{OfConn, on_conn_keeps}
use fand.Smc.Session.Invariant.{release_fans_keeps, release_diagnostic_unlock_keeps}
use fand.Smc.Session.Teardown.{release_fans, teardown}

-- A write of 0 to the fan's mode.
abbrev pub IsRelease : ℕ → ℕ × SmcParamStruct → Type 0
IsRelease i call =
    (call.1.data8 ≡ smc_cmd_write_key)
    × (call.1.key ≡ fourcc (fan_mode i))
    × (get_or call.1.bytes 0 1 ≡ 0)

-- An open connection that knows a mode to be of one byte.
pub record IsReady {D : Type 0} (c : SmcConnection D) : Type 0 where
  pub is_open : c.connection_open ≡ true
  pub has_port : (c.conn == 0) ≡ false
  pub slot_type : ℕ
  pub slot : Cache.get c.cache (fourcc (fan_mode 0)) ≡ some (1, slot_type)

module _ {D : Type 0} (sys : Device D) where
  call_struct_shell :
      (cmd : ℕ) (input : SmcParamStruct) (c : SmcConnection (Trace × D))
      → ((call_struct (traced sys) cmd input c).1.connection_open ≡ c.connection_open)
        × ((call_struct (traced sys) cmd input c).1.conn ≡ c.conn)
  unfolding call_struct
  call_struct_shell cmd input c = (ground arith, ground arith)

  -- A call on a ready connection is made at least once, and the connection stays ready.
  call_made :
      (cmd : ℕ) (input : SmcParamStruct) (c : SmcConnection (Trace × D))
      → IsReady c
      → (n : ℕ) × ((call_struct (traced sys) cmd input c).1.machine.0
          ≡ replicate (suc n) (c.conn, record input { data8 = cmd }) ++ c.machine.0)
  call_made cmd input c ready =
      let (k, low, high, e) = call_struct_calls sys cmd input c in
      let once : 1 ≤ k = subst (λ (b : Bool). (if b then 1 else 0) ≤ k) reached low in
      let (n, s) = positive k once in
      (n, e ∙ ap (λ m. replicate m (c.conn, record input { data8 = cmd }) ++ c.machine.0) s)
    where
      reached : reaches c ≡ true
      reached = rw ready.is_open (rw ready.has_port refl)

      positive : (k : ℕ) → 1 ≤ k → (n : ℕ) × (k ≡ suc n)
      positive zero h = absurd (omega arith)
      positive (suc n) h = (n, refl)

  call_struct-IsReady :
      (cmd : ℕ) (input : SmcParamStruct) (c : SmcConnection (Trace × D))
      → IsReady c
      → IsReady (call_struct (traced sys) cmd input c).1
  call_struct-IsReady cmd input c ready = record {
    is_open = (call_struct_shell cmd input c).0 ∙ ready.is_open;
    has_port = ap (λ n. n == 0) (call_struct_shell cmd input c).1 ∙ ready.has_port;
    slot_type = ready.slot_type;
    slot =
        ap (λ k. Cache.get k (fourcc (fan_mode 0))) (call_struct-cache (traced sys) cmd input c)
        ∙ ready.slot;
  }

  written_once :
      (input : SmcParamStruct) (c : SmcConnection (Trace × D))
      → ((call_struct (traced sys) smc_cmd_write_key input >>= λ _. ok tt) c).1
        ≡ (call_struct (traced sys) smc_cmd_write_key input c).1
  unfolding ok
  written_once input c =
      elim (bind_cases {B = Unit {0}} (call_struct (traced sys) smc_cmd_write_key input)
        (λ _. ok tt) c) [
          | inl (e, failed, whole) ↦ ap (λ r. r.1) whole
          | inr (output, done, whole) ↦ ap (λ r. r.1) whole
        ]

  -- What `force_write_auto_mode` asks for.
  release_input : ℕ → ℕ → SmcParamStruct
  release_input i slot_type =
      writing (fourcc (fan_mode i)) (record { data_size = 1; data_type = slot_type }) (0 ∷ [])

  force_write_auto_mode_asks :
      (i : ℕ) (c : SmcConnection (Trace × D)) (ready : IsReady c)
      → (force_write_auto_mode (traced sys) i c).1
        ≡ (call_struct (traced sys) smc_cmd_write_key (release_input i ready.slot_type) c).1
  unfolding force_write_auto_mode write_u8 write_key write_sized read_key_info read_key_info_or
      data_type ◌>>◌ ◌>>=◌ continue ask fail_if ok release_input
  force_write_auto_mode_asks i c ready =
      let same =
        Cache.Laws.get_same_slot c.cache (fourcc (fan_mode i)) (fourcc (fan_mode 0))
          (fan_mode_last i ∙ sym (fan_mode_last 0)) in
      rw (same ∙ ready.slot) (written_once (release_input i ready.slot_type) c)

  -- Each of the fans has been asked to be released.
  abbrev pub AreReleased : List ℕ → SmcConnection (Trace × D) → Type 0
  AreReleased fans c = All (λ i. Any (IsRelease i) c.machine.0) fans

  longer :
      (fans : List ℕ) (n : ℕ) (call : ℕ × SmcParamStruct) (trace : Trace)
      → All (λ i. Any (IsRelease i) trace) fans
      → All (λ i. Any (IsRelease i) (replicate n call ++ trace)) fans
  longer [] n call trace h = tt
  longer (i ∷ is) n call trace h =
      (Any-append_replicate (IsRelease i) n call trace h.0, longer is n call trace h.1)

  released_kept : (fans : List ℕ) → IsKept (traced sys) (λ _. Unit) (AreReleased fans)
  unfolding wall_clock_ns invalidate
  released_kept fans = record {
    call = λ cmd input h. record {
      kept = λ c p.
          let (n, low, high, e) = call_struct_calls sys cmd input c in
          subst (λ trace. All (λ i. Any (IsRelease i) trace) fans) (sym e)
            (longer fans n _ c.machine.0 p);
    };
    clock = record { kept = λ c p. p };
    put = λ c key data_size data_type h p. p;
    forget = λ c key p. p;
    reading = λ input h. tt;
  }

  module _ (i : ℕ) (c : SmcConnection (Trace × D)) (ready : IsReady c) where
    freed : SmcConnection (Trace × D)
    freed = (force_write_auto_mode (traced sys) i c).1

    freed-IsReady : IsReady freed
    unfolding freed
    freed-IsReady =
        subst IsReady (sym (force_write_auto_mode_asks i c ready))
          (call_struct-IsReady smc_cmd_write_key (release_input i ready.slot_type) c ready)

    asks_once : Any (IsRelease i) freed.machine.0
    unfolding freed release_input
    asks_once =
        let (n, e) = call_made smc_cmd_write_key (release_input i ready.slot_type) c ready in
        subst (λ trace. Any (IsRelease i) trace)
          (sym (ap (λ k. k.machine.0) (force_write_auto_mode_asks i c ready) ∙ e))
          (inl (refl, refl, refl))

  release_fans-AreReleased :
      (fans : List ℕ) (s : WriteSession (Trace × D))
      → IsReady s.conn
      → AreReleased fans (release_fans (traced sys) fans s).1.conn
  unfolding release_fans ◌>>=◌ ◌>>◌ continue ok ignore on_conn freed OfConn
  release_fans-AreReleased [] s ready = tt
  release_fans-AreReleased (i ∷ is) s ready =
      let next : WriteSession (Trace × D) = record s { conn = freed i s.conn ready } in
      let first =
        (release_fans_keeps (released_kept (i ∷ [])) (λ key value ki h. tt) is).kept next
          (asks_once i s.conn ready, tt) in
      (first.0, release_fans-AreReleased is next (freed-IsReady i s.conn ready))

  closed_AreReleased :
      (fans : List ℕ) (c : SmcConnection (Trace × D))
      → AreReleased fans c
      → AreReleased fans (close (traced sys) c)
  unfolding close
  closed_AreReleased fans c p =
      subst (λ trace. All (λ i. Any (IsRelease i) trace) fans) (sym (close-trace sys c)) p

  -- On a connection that is open and whose cache holds the size 1 in the slot of the mode keys, the
  -- first teardown asks the kernel, for every fan of the session, to write 0 to the fan's mode,
  -- whatever the kernel answers to the other fans, to `Ftst`, and to the retries.
  pub teardown_releases :
      (s : WriteSession (Trace × D))
      → s.tear_down_once ≡ false
      → IsReady s.conn
      → AreReleased s.fans (teardown (traced sys) s).conn
  unfolding teardown released OfConn force_write_ftst_zero
  teardown_releases s first ready =
      let start : WriteSession (Trace × D) = record s { tear_down_once = true } in
      let k = released_kept s.fans in
      let s1 = (release_fans (traced sys) s.fans start).1 in
      let s2 = (release_diagnostic_unlock (traced sys) s1).1 in
      let p1 = release_fans-AreReleased s.fans start ready in
      let p2 = (release_diagnostic_unlock_keeps k (λ key value ki h. tt)).kept s1 p1 in
      let p3 = (on_conn_keeps (write_u8_keeps k ftst 0 (λ ki. tt))).kept s2 p2 in
      rw first (rw (checklist_lem (traced sys) start) (closed_AreReleased s.fans _ p3))
