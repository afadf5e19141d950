-- ===== src/Smc/Error.antt =====
-- `SmcError` of src/smc/ffi.rs and `Fan` of src/smc/enumerate.rs. A session's identifier is a
-- number, and so is a status code.
pub mod Code
use fand.Prelude.{ℕ, Bool, Option, List}
use fand.Prelude.Text.{Text}
use fand.F32.{F32}
use fand.Prelude.Int.{ℤ}

pub data SmcError : Type 0 where
  service_not_found open_timeout already_closed tcc_denied lockdown_mode_suspected : SmcError
  open_failed key_not_found write_denied : ℕ → SmcError
  call_failed : (selector kr cmd : ℕ) → SmcError
  smc_result : (cmd result_byte : ℕ) → SmcError
  type_mismatch size_mismatch : (fourcc expected got : ℕ) → SmcError
  data_size_clamped : (fourcc reported : ℕ) → SmcError
  invalid_float empty_response attribute_denied : (fourcc : ℕ) → SmcError
  busy timeout : (retried : Bool) → SmcError
  endianness_unplausible : (fourcc got : ℕ) → SmcError
  unlock_mismatch : (expected got session timestamp_ns : ℕ) → SmcError
  unlock_rejected : (result_byte session : ℕ) → SmcError
  write_refused : (fourcc result_byte : ℕ) (context : Text) (session timestamp_ns : ℕ) → SmcError
  write_readback_mismatch :
      (fourcc : ℕ) (expected : List ℕ) (expected_len : ℕ) (got : List ℕ) (got_len session : ℕ)
      (timestamp_ns : ℕ) (iteration : Option ℕ)
      → SmcError
  watchdog_fired : (elapsed_ms session : ℕ) → SmcError
  conflict_detected : (holder_pid : ℤ) (lockfile_path : Text) → SmcError
  edr_denied : (suspected_agent : Option Text) → SmcError

pub record Fan : Type 0 where
  pub index : ℕ
  pub min_rpm : F32
  pub max_rpm : F32
  pub safe_rpm : Option F32
  pub actual_rpm : F32
  pub mode_key : ℕ
