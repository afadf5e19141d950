-- ===== src/Smc/Enumerate.antt =====
-- src/smc/enumerate.rs: the fans of the machine, read one key after the other.
pub mod Laws
pub mod Invariant
mod Tests
use fand.Prelude.{
  ℕ, zero, suc, ◌+◌, Bool, ◌||◌, ◌==◌, ltb, Option, none, some, List, [], ◌∷◌, if◌then◌else◌,
}
use fand.F32.{F32}
use fand.Smc.Error.{SmcError, Fan, key_not_found, endianness_unplausible}
use fand.Smc.Value.{from_be_bytes}
use fand.Smc.Keys.{fan_key_fourcc}
use fand.Smc.Action.{Action, ◌>>=◌, ◌>>◌, ok, fail, fail_if, on_error}
use fand.Smc.Ffi.{Device, SmcConnection}
use fand.Smc.Ffi.Read.{read_u8, read_u32, read_f32, read_key_info}
use fand.Smc.Session.Unlocking.{is_absent}

abbrev max_plausible_keys : ℕ
max_plausible_keys = 8000

abbrev key_count_key : ℕ
key_count_key = 592135513  -- "#KEY"

abbrev fan_count_key : ℕ
fan_count_key = 1179546989  -- "FNum"

module _ {D : Type 0} (sys : Device D) where
  -- The first number that is read: a count that cannot be tells of the wrong byte order.
  unfoldable pub read_key_count : Action (SmcConnection D) ℕ
  read_key_count = do
    count ← read_u32 sys key_count_key
    fail_if (count == 0 || ltb max_plausible_keys count)
        (endianness_unplausible key_count_key count)
    ok count

  -- A key that is not there is no error: `KeyNotFound` gives the default.
  unfoldable pub optional :
      {A B : Type 0} → B → (A → B) → Action (SmcConnection D) A → Action (SmcConnection D) B
  optional absent present m =
      on_error m (λ e. if is_absent e then ok absent else fail e) (λ a. ok (present a))

  unfoldable pub read_fan_count : Action (SmcConnection D) ℕ
  read_fan_count = optional 0 (λ n. n) (read_u8 sys fan_count_key)

  unfoldable pub probe_uppercase : ℕ → Action (SmcConnection D) ℕ
  probe_uppercase i =
      on_error (read_key_info sys (fan_key_fourcc b'M' b'd' i))
        (λ e. fail (if is_absent e then key_not_found (fan_key_fourcc b'M' b'd' i) else e))
        (λ _. ok (fan_key_fourcc b'M' b'd' i))

  unfoldable pub probe_mode_key : ℕ → Action (SmcConnection D) ℕ
  probe_mode_key i =
      on_error (read_key_info sys (fan_key_fourcc b'm' b'd' i))
        (λ e. if is_absent e then probe_uppercase i else fail e)
        (λ _. ok (fan_key_fourcc b'm' b'd' i))

  unfoldable pub read_fan : ℕ → Action (SmcConnection D) Fan
  read_fan i = do
    low ← read_f32 sys (fan_key_fourcc b'M' b'n' i)
    high ← read_f32 sys (fan_key_fourcc b'M' b'x' i)
    safe ← optional none some (read_f32 sys (fan_key_fourcc b'S' b'f' i))
    actual ← read_f32 sys (fan_key_fourcc b'A' b'c' i)
    mode_key ← probe_mode_key i
    ok (record {
      index = i;
      min_rpm = low;
      max_rpm = high;
      safe_rpm = safe;
      actual_rpm = actual;
      mode_key = mode_key;
    })

  -- `for i in 0..fan_count`, from `i` on with `n` to go.
  unfoldable pub read_fans : ℕ → ℕ → Action (SmcConnection D) (List Fan)
  read_fans i zero = ok []
  read_fans i (suc n) = do fan ← read_fan i; fans ← read_fans (i + 1) n; ok (fan ∷ fans)

  unfoldable pub enumerate_fans : Action (SmcConnection D) (List Fan)
  enumerate_fans = do key_count ← read_key_count; fan_count ← read_fan_count; read_fans 0 fan_count
