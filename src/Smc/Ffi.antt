-- ===== src/Smc/Ffi.antt =====
-- src/smc/ffi.rs: a connection to the SMC, and the one call of the kernel that it makes.
-- The kernel and the clock are a parameter: `D` is the state of the machine, and `Device` has the
-- functions of the system that change or read it. A `kern_return_t` is the number of its 32 bits.
-- Sleeps, log lines and the guard of the Mach port are left out.
pub mod Read
pub mod Write
pub mod Verified
pub mod Invariant
pub mod Laws
pub mod Traced
pub mod Cached
mod Tests
use fand.Prelude.{
  ℕ, zero, suc, Bool, true, false, not, ◌&&◌, ◌==◌, List, ◌⊎◌, inl, inr, replicate, if◌then◌else◌,
}
use fand.Smc.Error.{SmcError, already_closed, busy, timeout, call_failed, smc_result}
use fand.Smc.Cache.{KeyInfoCache}
use fand.Smc.Action.{Action}

pub record SmcKeyInfoData : Type 0 where
  pub data_size : ℕ
  pub data_type : ℕ
  pub data_attributes : ℕ

pub record SmcParamStruct : Type 0 where
  pub key : ℕ
  pub vers : List ℕ  -- [u8; 6]
  pub p_limit_data : List ℕ  -- [u8; 16]
  pub key_info : SmcKeyInfoData
  pub result : ℕ
  pub status : ℕ
  pub data8 : ℕ
  pub data32 : ℕ
  pub bytes : List ℕ  -- [u8; 32]

abbrev pub zeroed : SmcParamStruct
zeroed = record {
  key = 0;
  vers = replicate 6 0;
  p_limit_data = replicate 16 0;
  key_info = record { data_size = 0; data_type = 0; data_attributes = 0 };
  result = 0;
  status = 0;
  data8 = 0;
  data32 = 0;
  bytes = replicate 32 0;
}

-- What the daemon calls of the system: `IOConnectCallStructMethod` with the selector 2, from the
-- input to the status and the output, `IOServiceClose`, and the wall clock in nanoseconds.
pub record Device (D : Type 0) : Type 0 where
  pub call_struct_method : ℕ → SmcParamStruct → D → (ℕ × SmcParamStruct) × D
  pub service_close : ℕ → D → D
  pub wall_clock_ns : D → ℕ × D

-- `conn` is the port, 0 for `MACH_PORT_NULL`.
pub record SmcConnection (D : Type 0) : Type 0 where
  pub conn : ℕ
  pub cache : KeyInfoCache
  pub connection_open : Bool
  pub machine : D

abbrev pub io_return_busy : ℕ
io_return_busy = 3758096937

abbrev pub io_return_timeout : ℕ
io_return_timeout = 3758097158

abbrev pub smc_selector : ℕ
smc_selector = 2

abbrev pub smc_err_key_not_found : ℕ
smc_err_key_not_found = 132

-- What `call_struct` makes of an answer that it does not retry.
unfoldable pub judge : ℕ → ℕ → SmcParamStruct → SmcError ⊎ SmcParamStruct
judge cmd kr output =
    if kr == io_return_busy
    then inl (busy true)
    else if kr == io_return_timeout
    then inl (timeout true)
    else if not (kr == 0)
    then inl (call_failed smc_selector kr cmd)
    else if not (output.result == 0)
    then inl (smc_result cmd output.result)
    else inr output

module _ {D : Type 0} (sys : Device D) where
  -- The loop of `call_struct` from its two flags on. The fuel counts the retries left.
  unfoldable pub call_loop :
      ℕ
      → (retried_busy retried_timeout : Bool) (conn cmd : ℕ) → SmcParamStruct
      → D
      → (SmcError ⊎ SmcParamStruct) × D
  call_loop zero retried_busy retried_timeout conn cmd input d =
      let r = sys.call_struct_method conn input d in (judge cmd r.0.0 r.0.1, r.1)
  call_loop (suc n) retried_busy retried_timeout conn cmd input d =
      let r = sys.call_struct_method conn input d in
      let after_busy = call_loop n true retried_timeout conn cmd input r.1 in
      let after_timeout = call_loop n retried_busy true conn cmd input r.1 in
      if r.0.0 == io_return_busy && not retried_busy
      then after_busy
      else if r.0.0 == io_return_timeout && not retried_timeout
      then after_timeout
      else (judge cmd r.0.0 r.0.1, r.1)

  unfoldable pub call_struct : ℕ → SmcParamStruct → Action (SmcConnection D) SmcParamStruct
  call_struct cmd input c =
      let r = call_loop 2 false false c.conn cmd (record input { data8 = cmd }) c.machine in
      if not c.connection_open
      then (inl already_closed, c)
      else if c.conn == 0
      then (inl already_closed, c)
      else (r.0, record c { machine = r.1 })

-- `wall_clock_ns`, which a connection's methods read too.
unfoldable pub wall_clock_ns : {D : Type 0} → Device D → Action (SmcConnection D) ℕ
wall_clock_ns sys c = let r = sys.wall_clock_ns c.machine in (inr r.0, record c { machine = r.1 })

unfoldable pub is_open : {D : Type 0} → SmcConnection D → Bool
is_open c = c.connection_open

-- `close`, which only the first call does.
unfoldable pub close : {D : Type 0} → Device D → SmcConnection D → SmcConnection D
close sys c =
    if not c.connection_open
    then c
    else if c.conn == 0
    then record c { connection_open = false; conn = 0 }
    else record c {
      connection_open = false;
      conn = 0;
      machine = sys.service_close c.conn c.machine;
    }
