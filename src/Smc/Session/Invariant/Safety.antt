-- ===== src/Smc/Session/Invariant/Safety.antt =====
-- src/smc/write_session.rs: what any sequence of calls of a session's methods asks of the kernel.
use fand.Prelude.{
  ◌⊎◌, inl, inr, ◌≢◌, ℕ, ◌≡◌, ◌≢◌, refl, sym, subst, false, List, [], ◌∷◌, All, get_or, arith,
}
use fand.Control.Clamp.{ClampedRpm}
use fand.Smc.Keys.{WritableKey, fourcc}
use fand.Smc.Cache
use fand.Smc.Cache.Laws
use fand.Smc.Ffi.{SmcParamStruct, Device, SmcConnection, call_struct, wall_clock_ns, close}
use fand.Smc.Ffi.Read.{KeyInfo, invalidate, read_f32}
use fand.Smc.Ffi.Write.{smc_cmd_write_key, writing}
use fand.Smc.Ffi.Invariant.{IsKept, read_f32_keeps}
use fand.Smc.Ffi.Traced.{calls_kept}
use fand.Smc.Ffi.Laws.{Trace, traced, cache_kept, close-trace, close-cache}
use fand.Smc.Session.{WriteSession, on_conn, heartbeat, read_actual_rpm}
use fand.Smc.Session.Selftest.{run_selftest}
use fand.Smc.Session.Selftest.Invariant.{read_actual_rpm_keeps, run_selftest_keeps}
use fand.Smc.Session.Unlocking.{begin_diagnostic_unlock}
use fand.Smc.Session.Commit.{commit_set_fan}
use fand.Smc.Session.Teardown.{teardown}
use fand.Smc.Session.Teardown.Laws.{teardown_ends}
use fand.Smc.Session.Writes.{IsSafe, forcing, OfConn, on_conn_keeps}
use fand.Smc.Session.Invariant.{
  heartbeat_keeps, begin_diagnostic_unlock_keeps, commit_set_fan_keeps, teardown_keeps,
}

-- The public methods of a session that reach its connection. Of what a caller could do through
-- `connection_mut` only the read of a float is here, the one thing that the code does with it.
pub data Method : Type 0 where
  calls_commit_set_fan : (fan_index : ℕ) (target : ClampedRpm) → Method
  calls_begin_diagnostic_unlock calls_teardown : Method
  calls_heartbeat : Method  -- `heartbeat_unlock` does the same
  calls_run_selftest : (iterations elapsed_ms : ℕ) → Method
  calls_read_actual_rpm : (fan_index : ℕ) → Method
  calls_read_f32 : (key : ℕ) → Method  -- through `connection_mut`

module _ {D : Type 0} (sys : Device D) where
  -- One call, whose error the caller drops.
  unfoldable pub perform : Method → WriteSession D → WriteSession D
  perform (calls_commit_set_fan i target) s = (commit_set_fan sys i target s).1
  perform calls_begin_diagnostic_unlock s = (begin_diagnostic_unlock sys s).1
  perform calls_heartbeat s = (heartbeat sys s).1
  perform calls_teardown s = teardown sys s
  perform (calls_run_selftest iterations elapsed_ms) s =
      (run_selftest sys iterations elapsed_ms s).1
  perform (calls_read_actual_rpm i) s = (read_actual_rpm sys i s).1
  perform (calls_read_f32 key) s = (on_conn (read_f32 sys key) s).1

  unfoldable pub perform_all : List Method → WriteSession D → WriteSession D
  perform_all [] s = s
  perform_all (m ∷ ms) s = perform_all ms (perform m s)

-- No write, or a write of a byte that is 0 or 1, to a fan's mode or to `Ftst`.
abbrev pub IsSafeInput : SmcParamStruct → Type 0
IsSafeInput input =
    (input.data8 ≢ smc_cmd_write_key)
    ⊎ ((key : WritableKey) × (value : ℕ) × IsSafe key value
        × (input.key ≡ fourcc key)
        × (get_or input.bytes 0 0 ≡ value))

abbrev pub AreSafeCalls : Trace → Type 0
AreSafeCalls trace = All (λ (call : ℕ × SmcParamStruct). IsSafeInput call.1) trace

module _ {D : Type 0} {sys : Device D} {Allowed : SmcParamStruct → Type 0}
    {P : SmcConnection D → Type 0} (k : IsKept sys Allowed P)
    (safe : (key : WritableKey) (value : ℕ) (ki : KeyInfo)
      → IsSafe key value
      → Allowed (record (writing (fourcc key) ki (value ∷ [])) { data8 = smc_cmd_write_key }))
    (closes : (c : SmcConnection D) → P c → P (close sys c)) where
  perform_keeps : (m : Method) (s : WriteSession D) → P s.conn → P (perform sys m s).conn
  unfolding perform OfConn
  perform_keeps (calls_commit_set_fan i target) s p =
      (commit_set_fan_keeps k (forcing Allowed safe) i target).kept s p
  perform_keeps calls_begin_diagnostic_unlock s p =
      (begin_diagnostic_unlock_keeps k (forcing Allowed safe)).kept s p
  perform_keeps calls_heartbeat s p = (heartbeat_keeps k (forcing Allowed safe)).kept s p
  perform_keeps calls_teardown s p = teardown_keeps k safe closes s p
  perform_keeps (calls_run_selftest iterations elapsed_ms) s p =
      (run_selftest_keeps k safe iterations elapsed_ms).kept s p
  perform_keeps (calls_read_actual_rpm i) s p = (read_actual_rpm_keeps k safe i).kept s p
  perform_keeps (calls_read_f32 key) s p = (on_conn_keeps (read_f32_keeps k key)).kept s p

  -- What one call of the kernel keeps, any sequence of methods keeps.
  pub perform_all_keeps :
      (ms : List Method) (s : WriteSession D) → P s.conn → P (perform_all sys ms s).conn
  unfolding perform_all
  perform_all_keeps [] s p = p
  perform_all_keeps (m ∷ ms) s p = perform_all_keeps ms (perform sys m s) (perform_keeps m s p)

module _ {D : Type 0} (sys : Device D) where
  -- The calls so far are safe.
  abbrev pub SafeSoFar : SmcConnection (Trace × D) → Type 0
  SafeSoFar c = AreSafeCalls c.machine.0

  pub safe_kept : IsKept (traced sys) IsSafeInput SafeSoFar
  safe_kept = calls_kept IsSafeInput sys (λ input h. inl h)

  -- Whatever public methods of a session are called in whatever order, its self test among them, with
  -- reads of floats through `connection_mut` in between, and however each of them ends, every write
  -- that the kernel is asked for is of a byte that is 0 or 1, to the mode of a fan or to `Ftst`: no
  -- fan is ever given a mode from 2 on, or a speed.
  pub perform_all_safe :
      (ms : List Method) (s : WriteSession (Trace × D))
      → AreSafeCalls s.conn.machine.0
      → AreSafeCalls (perform_all (traced sys) ms s).conn.machine.0
  perform_all_safe ms s p =
      perform_all_keeps safe_kept (λ key value ki h. inr (key, value, h, refl, refl))
        (λ c q. subst AreSafeCalls (sym (close-trace sys c)) q) ms s p

  -- Whatever methods of a session are called, its cache keeps its 256 slots, and no size above 32 is
  -- in them.
  pub perform_all-IsValid :
      (ms : List Method) (s : WriteSession D)
      → Cache.Laws.IsValid s.conn.cache
      → Cache.Laws.IsValid (perform_all sys ms s).conn.cache
  perform_all-IsValid ms s p =
      perform_all_keeps (cache_kept sys) (λ key value ki h. tt)
        (λ c q. subst Cache.Laws.IsValid (sym (close-cache sys c)) q) ms s p

  -- The connection is closed, and no call was made since.
  record IsSilent (trace : Trace) (c : SmcConnection (Trace × D)) : Type 0 where
    is_closed : c.connection_open ≡ false
    no_calls : c.machine.0 ≡ trace

  call_struct-IsSilent :
      (trace : Trace) (cmd : ℕ) (input : SmcParamStruct) (c : SmcConnection (Trace × D))
      → IsSilent trace c
      → IsSilent trace (call_struct (traced sys) cmd input c).1
  unfolding call_struct
  call_struct-IsSilent trace cmd input c h = subst (IsSilent trace) unchanged h
    where
      unchanged : c ≡ (call_struct (traced sys) cmd input c).1
      unchanged = ground (arith, h.is_closed)

  close-IsSilent :
      (trace : Trace) (c : SmcConnection (Trace × D))
      → IsSilent trace c
      → IsSilent trace (close (traced sys) c)
  unfolding close
  close-IsSilent trace c h = subst (IsSilent trace) unchanged h
    where
      unchanged : c ≡ close (traced sys) c
      unchanged = ground (arith, h.is_closed)

  IsSilent-IsKept : (trace : Trace) → IsKept (traced sys) (λ _. Unit) (IsSilent trace)
  unfolding wall_clock_ns invalidate
  IsSilent-IsKept trace = record {
    call = λ cmd input h. record { kept = call_struct-IsSilent trace cmd input };
    clock = record { kept = λ c p. record { is_closed = p.is_closed; no_calls = p.no_calls } };
    put =
        λ c key data_size data_type h p. record { is_closed = p.is_closed; no_calls = p.no_calls };
    forget = λ c key p. record { is_closed = p.is_closed; no_calls = p.no_calls };
    reading = λ input h. tt;
  }

  -- After a teardown that was the first, no public method of the session reaches the kernel again, the
  -- self test and a read of a float through `connection_mut` included: the calls made stay those that
  -- the teardown left, and the connection stays closed.
  pub perform_all_silent :
      (ms : List Method) (s : WriteSession (Trace × D))
      → s.tear_down_once ≡ false
      → let after = teardown (traced sys) s in
        ((perform_all (traced sys) ms after).conn.machine.0 ≡ after.conn.machine.0)
        × ((perform_all (traced sys) ms after).conn.connection_open ≡ false)
  perform_all_silent ms s first =
      let after = teardown (traced sys) s in
      let h =
        perform_all_keeps (IsSilent-IsKept after.conn.machine.0) (λ key value ki q. tt)
          (close-IsSilent after.conn.machine.0) ms after
          (record { is_closed = (teardown_ends (traced sys) s first).0; no_calls = refl }) in
      (h.no_calls, h.is_closed)
