-- ===== src/Smc/Session/Selftest/Invariant.antt =====
-- `run_selftest` of src/smc/write_session.rs: what it keeps of the connection.
use fand.Prelude.{ℕ, zero, suc, ◌+◌, ◌≤◌, List, [], ◌∷◌, arith}
use fand.Prelude.Text.{Text}
use fand.Smc.Keys.{WritableKey, fan_mode, fourcc}
use fand.Smc.Action.Invariant.{Keeps, ok_keeps, ask_keeps, bind_keeps, then_keeps}
use fand.Smc.Ffi.{SmcParamStruct, Device, SmcConnection}
use fand.Smc.Ffi.Read.{KeyInfo}
use fand.Smc.Ffi.Write.{smc_cmd_write_key, writing}
use fand.Smc.Ffi.Invariant.{IsKept, read_f32_keeps}
use fand.Smc.Session.{read_actual_rpm}
use fand.Smc.Session.Writes.{
  IsSafe, forcing, OfConn, on_conn_keeps, on_writer_keeps, write_u8_verified_keeps,
}
use fand.Smc.Session.Invariant.{heartbeat_keeps}
use fand.Smc.Session.Selftest.{
  sample, hold_and_sample, engage_mode, run_iteration, run_iterations, Progress, test_fan,
  test_fans, run_selftest,
}

module _ {D : Type 0} {sys : Device D} {Allowed : SmcParamStruct → Type 0}
    {P : SmcConnection D → Type 0} (k : IsKept sys Allowed P)
    (safe : (key : WritableKey) (value : ℕ) (ki : KeyInfo)
      → IsSafe key value
      → Allowed (record (writing (fourcc key) ki (value ∷ [])) { data8 = smc_cmd_write_key })) where
  pub read_actual_rpm_keeps : (i : ℕ) → Keeps (OfConn P) (read_actual_rpm sys i)
  unfolding read_actual_rpm
  read_actual_rpm_keeps i = on_conn_keeps (read_f32_keeps k _)

  sample_keeps : (i : ℕ) → Keeps (OfConn P) (sample sys i)
  unfolding sample
  sample_keeps i = record { kept = λ s p. (read_actual_rpm_keeps i).kept s p }

  hold_and_sample_keeps : (n i : ℕ) → Keeps (OfConn P) (hold_and_sample sys n i)
  unfolding hold_and_sample
  hold_and_sample_keeps zero i = ok_keeps _
  hold_and_sample_keeps (suc n) i =
      bind_keeps (sample_keeps i) (λ v. bind_keeps (hold_and_sample_keeps n i) (λ vs. ok_keeps _))

  engage_mode_keeps :
      (i value : ℕ) (context : Text)
      → value ≤ 1
      → Keeps (OfConn P) (engage_mode sys i value context)
  unfolding engage_mode
  engage_mode_keeps i value context h = bind_keeps (ask_keeps _) (λ session.
      then_keeps
        (on_writer_keeps P (write_u8_verified_keeps k safe (fan_mode i) value context session h))
        (heartbeat_keeps k (forcing Allowed safe)))

  run_iteration_keeps : (i iter : ℕ) → Keeps (OfConn P) (run_iteration sys i iter)
  unfolding run_iteration
  run_iteration_keeps i iter = then_keeps (engage_mode_keeps i 1 _ (omega arith)) (
      bind_keeps (hold_and_sample_keeps _ i) (λ low.
        then_keeps (engage_mode_keeps i 0 _ (omega arith))
          (bind_keeps (hold_and_sample_keeps _ i) (λ high. ok_keeps _))))

  run_iterations_keeps :
      (i iter n : ℕ) (p : Progress) → Keeps (OfConn P) (run_iterations sys i iter n p)
  unfolding run_iterations
  run_iterations_keeps i iter zero p = ok_keeps p
  run_iterations_keeps i iter (suc n) p =
      bind_keeps (run_iteration_keeps i iter) (λ s. run_iterations_keeps i (iter + 1) n _)

  test_fans_keeps :
      (iterations : ℕ) (fans : List ℕ) → Keeps (OfConn P) (test_fans sys iterations fans)
  unfolding test_fans test_fan
  test_fans_keeps iterations [] = ok_keeps _
  test_fans_keeps iterations (i ∷ is) =
      bind_keeps (bind_keeps (run_iterations_keeps i 0 iterations _) (λ p. ok_keeps _))
        (λ r. bind_keeps (test_fans_keeps iterations is) (λ rs. ok_keeps _))

  pub run_selftest_keeps :
      (iterations elapsed_ms : ℕ) → Keeps (OfConn P) (run_selftest sys iterations elapsed_ms)
  unfolding run_selftest
  run_selftest_keeps iterations elapsed_ms =
      bind_keeps (ask_keeps _)
        (λ fans. bind_keeps (test_fans_keeps iterations fans) (λ rs. ok_keeps _))
