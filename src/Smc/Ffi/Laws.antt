-- ===== src/Smc/Ffi/Laws.antt =====
-- src/smc/ffi.rs: the loop of a call, and the cache that the methods of a connection keep.
use fand.Prelude.{
  subst, replicate-cons, if_both, replicate, ◌++◌, ℕ, zero, suc, ◌+◌, ◌≤◌, ◌≡◌, refl, sym, ◌∙◌,
  Bool, true, false, not, ◌&&◌, ◌==◌, ◌⊎◌, inl, inr, List, ◌∷◌, if◌then◌else◌, Bool-cases, arith,
}
use fand.Smc.Error.{SmcError}
use fand.Smc.Cache
use fand.Smc.Cache.Laws
use fand.Smc.Ffi.{
  close, SmcParamStruct, Device, SmcConnection, call_struct, call_loop, wall_clock_ns,
  io_return_busy, io_return_timeout,
}
use fand.Smc.Ffi.Read.{invalidate}
use fand.Smc.Ffi.Invariant.{IsKept}

-- The retries that the flags leave.
abbrev pub retries : Bool → Bool → ℕ
retries retried_busy retried_timeout =
    (if retried_busy then 0 else 1) + (if retried_timeout then 0 else 1)

-- A call of the kernel more, with its input.
abbrev pub Trace : Type 0
Trace = List (ℕ × SmcParamStruct)

-- The machine with a list of the calls that were made of it, the last one first.
abbrev pub traced : {D : Type 0} → Device D → Device (Trace × D)
traced sys = record {
  call_struct_method = λ conn input d.
      let r = sys.call_struct_method conn input d.1 in (r.0, ((conn, input) ∷ d.0, r.1));
  service_close = λ conn d. (d.0, sys.service_close conn d.1);
  wall_clock_ns = λ d. let r = sys.wall_clock_ns d.1 in (r.0, (d.0, r.1));
}

module _ {D : Type 0} (sys : Device D) (conn cmd : ℕ) (input : SmcParamStruct) where
  -- Once the fuel is the number of flags that are not set, more fuel changes nothing: no run of the
  -- loop is cut off.
  pub call_loop_fuel :
      (n : ℕ) (retried_busy retried_timeout : Bool) (d : D)
      → retries retried_busy retried_timeout ≤ n
      → call_loop sys (suc n) retried_busy retried_timeout conn cmd input d
        ≡ call_loop sys n retried_busy retried_timeout conn cmd input d
  unfolding call_loop
  call_loop_fuel zero rb rt d h = ground arith
  call_loop_fuel (suc n) rb rt d h =
      let e = (sys.call_struct_method conn input d).1 in
      let busy = call_loop_fuel n true rt e in
      let timeout = call_loop_fuel n rb true e in ground (arith, busy, timeout)

  -- From one to `n` calls, each with the input, were made after `before`.
  abbrev pub MadeCalls : ℕ → Trace → (SmcError ⊎ SmcParamStruct) × (Trace × D) → Type 0
  MadeCalls n before r = (k : ℕ) × (suc k ≤ n) × (r.1.0 ≡ replicate (suc k) (conn, input) ++ before)

  one_more :
      (n : ℕ) (before : Trace) (r : (SmcError ⊎ SmcParamStruct) × (Trace × D))
      → MadeCalls n ((conn, input) ∷ before) r
      → MadeCalls (suc n) before r
  one_more n before r (k, le, e) =
      (suc k, omega arith, e ∙ replicate-cons (suc k) (conn, input) before)

  pub call_loop_calls :
      (n : ℕ) (retried_busy retried_timeout : Bool) (d : Trace × D)
      → MadeCalls
          (suc n)
          d.0
          (call_loop (traced sys) n retried_busy retried_timeout conn cmd input d)
  unfolding call_loop
  call_loop_calls zero rb rt d = (0, omega arith, refl)
  call_loop_calls (suc n) rb rt d =
      let r = sys.call_struct_method conn input d.1 in
      let e : Trace × D = ((conn, input) ∷ d.0, r.1) in
      let again = λ (x y : Bool).
        one_more (suc n) d.0 (call_loop (traced sys) n x y conn cmd input e)
          (call_loop_calls n x y e) in
      if_both (MadeCalls (suc (suc n)) d.0) (r.0.0 == io_return_busy && not rb) (again true rt) (
        if_both (MadeCalls (suc (suc n)) d.0) (r.0.0 == io_return_timeout && not rt) (again rb true)
          (0, omega arith, refl))

-- Whether `call_struct` gets to the kernel.
abbrev pub reaches : {D : Type 0} → SmcConnection D → Bool
reaches c = c.connection_open && not (c.conn == 0)

-- A call on an open connection asks the kernel once, twice or three times, each time with the same
-- port and the same input; on a closed one, or on one without a port, it does not ask at all.
pub call_struct_calls :
    {D : Type 0} (sys : Device D) (cmd : ℕ) (input : SmcParamStruct) (c : SmcConnection (Trace × D))
    → (k : ℕ) × ((if reaches c then 1 else 0) ≤ k)
      × (k ≤ (if reaches c then 3 else 0))
      × ((call_struct (traced sys) cmd input c).1.machine.0
          ≡ replicate k (c.conn, record input { data8 = cmd }) ++ c.machine.0)
unfolding call_struct
call_struct_calls {D} sys cmd input c =
    let asked : SmcParamStruct = record input { data8 = cmd } in
    let (k, le, e) = call_loop_calls sys c.conn cmd asked 2 false false c.machine in
    elim (Bool-cases c.connection_open) [
      | inl h ↦ elim (Bool-cases (c.conn == 0)) [
        | inl null ↦ rw h (rw null (0, omega arith, omega arith, refl))
        | inr valid ↦ rw h (rw valid (suc k, omega arith, le, e))
      ]
      | inr h ↦ rw h (0, omega arith, omega arith, refl)
    ]

module _ {D : Type 0} (sys : Device D) where
  pub call_struct-cache :
      (cmd : ℕ) (input : SmcParamStruct) (c : SmcConnection D)
      → (call_struct sys cmd input c).1.cache ≡ c.cache
  unfolding call_struct
  call_struct-cache cmd input c = ground arith

  -- The cache stays well formed.
  pub cache_kept : IsKept sys (λ _. Unit) (λ c. Cache.Laws.IsValid c.cache)
  unfolding wall_clock_ns invalidate
  cache_kept = record {
    call = λ cmd input _. record {
      kept = λ c p. subst Cache.Laws.IsValid (sym (call_struct-cache cmd input c)) p;
    };
    clock = record { kept = λ c p. p };
    put =
        λ c key data_size data_type h p. Cache.Laws.put-IsValid c.cache key data_size data_type p h;
    forget = λ c key p. Cache.Laws.invalidate-IsValid c.cache key p;
    reading = λ input h. tt;
  }

  pub close-trace : (c : SmcConnection (Trace × D)) → (close (traced sys) c).machine.0 ≡ c.machine.0
  unfolding close
  close-trace c = ground arith

  pub close-cache : (c : SmcConnection D) → (close sys c).cache ≡ c.cache
  unfolding close
  close-cache c = ground arith
