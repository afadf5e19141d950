-- ===== src/Smc/Ffi/Traced.antt =====
-- What holds of every call of the kernel so far is kept where it holds of each call that is allowed.
use fand.Prelude.{ℕ, ◌≢◌, subst, sym, All, All-append_replicate}
use fand.Smc.Ffi.{SmcParamStruct, Device, wall_clock_ns}
use fand.Smc.Ffi.Read.{invalidate}
use fand.Smc.Ffi.Write.{smc_cmd_write_key}
use fand.Smc.Ffi.Invariant.{IsKept}
use fand.Smc.Ffi.Laws.{Trace, traced, call_struct_calls}

module _ (Q : SmcParamStruct → Type 0) where
  abbrev pub AllCalls : Trace → Type 0
  AllCalls trace = All (λ (call : ℕ × SmcParamStruct). Q call.1) trace

  pub calls_kept :
      {D : Type 0} (sys : Device D)
      → ((input : SmcParamStruct) → input.data8 ≢ smc_cmd_write_key → Q input)
      → IsKept (traced sys) Q (λ c. AllCalls c.machine.0)
  unfolding wall_clock_ns invalidate
  calls_kept sys reads = record {
    call = λ cmd input h. record {
      kept = λ c p.
          let (n, low, high, e) = call_struct_calls sys cmd input c in
          subst AllCalls (sym e)
            (All-append_replicate (λ (call : ℕ × SmcParamStruct). Q call.1) n _ c.machine.0 h p);
    };
    clock = record { kept = λ c p. p };
    put = λ c key data_size data_type h p. p;
    forget = λ c key p. p;
    reading = reads;
  }
