-- ===== src/Smc/Session/Acquire/Laws.antt =====
-- What an acquired session and the two other paths of release have in common.
use fand.Prelude.{
  ℕ, ◌≡◌, ap, refl, Bool, true, false, some, List, ◌⊎◌, inl, inr, map, if◌then◌else◌,
}
use fand.Prelude.Text.{Text}
use fand.Smc.Error.{SmcError, Fan}
use fand.Smc.Ffi.{Device, SmcConnection}
use fand.Smc.Enumerate.{enumerate_fans}
use fand.Smc.Enumerate.Laws.{AreNumbered, enumerate_fans-find_fan}
use fand.Smc.PanicHook.{unset, seal_for_panic}
use fand.Smc.SingleInstance.{
  FlockError, FlockGuard, permission_denied, symlink_loop, invalid_input, other, already_held,
  symlink_rejected, unreliable_filesystem, create_failed, canonicalization_failed, write_failed,
}
use fand.Smc.Session.Acquire.{Acquired, flock_error_to_smc_error, wired, enumerated, acquire}
use fand.Cli.Selftest.{code_of_error}

-- An error, or three paths of release that have the same fans, all those that were found.
abbrev pub IsWired : {D : Type 0} → SmcError ⊎ Acquired D → Type 0
IsWired (inl e) = Unit
IsWired (inr a) =
    (AreNumbered 0 a.session.fan_envelopes)
    × (a.session.fans ≡ map (λ (f : Fan). f.index) a.session.fan_envelopes)
    × (a.signal_thread.state.fans ≡ a.session.fans)
    × (a.hook.panic_fans ≡ some a.session.fans)
    × (a.session.tear_down_once ≡ false)

module _ {D : Type 0} (sys : Device D) (text : FlockError → Text) (session_id : ℕ) where
  enumerated-IsWired :
      (guard : FlockGuard) (start teardown_conn panic_conn : SmcConnection D)
      (r : (SmcError ⊎ List Fan) × SmcConnection D)
      → enumerate_fans sys start ≡ r
      → IsWired (enumerated sys text session_id unset guard teardown_conn panic_conn r)
  unfolding enumerated wired seal_for_panic
  enumerated-IsWired guard start teardown_conn panic_conn (inl e, c) h = tt
  enumerated-IsWired guard start teardown_conn panic_conn (inr fans, c) h =
      ((enumerate_fans-find_fan sys start fans 0 (ap (λ r. r.0) h)).0, refl, refl, refl, refl)

  -- The first session that a process acquires, whatever the lock, the opens and the kernel give: it
  -- numbers its fans from 0 on, and the teardown, the signal thread and the panic hook all hold the
  -- indices of exactly these fans, with no teardown begun.
  pub acquire-IsWired :
      (locked : FlockError ⊎ FlockGuard) (first second third : SmcError ⊎ SmcConnection D)
      → IsWired (acquire sys text session_id unset locked first second third)
  unfolding acquire
  acquire-IsWired (inl e) first second third = tt
  acquire-IsWired (inr guard) (inl e) second third = tt
  acquire-IsWired (inr guard) (inr c1) (inl e) third = tt
  acquire-IsWired (inr guard) (inr c1) (inr c2) (inl e) = tt
  acquire-IsWired (inr guard) (inr c1) (inr c2) (inr c3) =
      enumerated-IsWired guard c1 c2 c3 (enumerate_fans sys c1) refl

abbrev pub is_denied : FlockError → Bool
is_denied (create_failed permission_denied) = true
is_denied e = false

-- A lock that is not taken ends `fand selftest` with 2, as one that is not run by root, exactly where
-- the creation of the file was denied, and with 5, as a conflict, on every other error.
pub code_of_error-flock_error_to_smc_error :
    (text : FlockError → Text) (e : FlockError)
    → code_of_error (flock_error_to_smc_error text e) ≡ (if is_denied e then 2 else 5)
unfolding code_of_error flock_error_to_smc_error
code_of_error-flock_error_to_smc_error text (unreliable_filesystem name) = refl
code_of_error-flock_error_to_smc_error text (create_failed permission_denied) = refl
code_of_error-flock_error_to_smc_error text (create_failed symlink_loop) = refl
code_of_error-flock_error_to_smc_error text (create_failed invalid_input) = refl
code_of_error-flock_error_to_smc_error text (create_failed (other n)) = refl
code_of_error-flock_error_to_smc_error text (canonicalization_failed e) = refl
code_of_error-flock_error_to_smc_error text (write_failed e) = refl
code_of_error-flock_error_to_smc_error text (already_held pid) = refl
code_of_error-flock_error_to_smc_error text symlink_rejected = refl
