-- ===== src/Smc/Keys.antt =====
-- src/smc/keys.rs: the whitelist of writable keys, and the codes of keys and of types.
-- The index of a fan is a byte; `b'0' + index` wraps, as a release build does.
pub mod Laws
use fand.Prelude.{ℕ, ◌+◌, ◌%◌, [], ◌∷◌}
use fand.Smc.Value.{from_be_bytes}

abbrev pub type_flt : ℕ
type_flt = 1718383648  -- "flt "

abbrev pub type_ui8 : ℕ
type_ui8 = 1969829920  -- "ui8 "

abbrev pub type_ui32 : ℕ
type_ui32 = 1969828658  -- "ui32"

pub data WritableKey : Type 0 where
  fan_mode fan_target : (i : ℕ) → WritableKey
  ftst : WritableKey

unfoldable pub fan_key_fourcc : ℕ → ℕ → ℕ → ℕ
fan_key_fourcc c3 c4 index = from_be_bytes (b'F' ∷ (b'0' + index) % 256 ∷ c3 ∷ c4 ∷ [])

unfoldable pub fourcc : WritableKey → ℕ
unfolding fan_key_fourcc
fourcc (fan_mode i) = fan_key_fourcc b'm' b'd' i
fourcc (fan_target i) = fan_key_fourcc b'D' b'c' i
fourcc ftst = from_be_bytes (b'F' ∷ b't' ∷ b's' ∷ b't' ∷ [])

unfoldable pub data_type : WritableKey → ℕ
data_type (fan_mode i) = type_ui8
data_type (fan_target i) = type_flt
data_type ftst = type_ui8
