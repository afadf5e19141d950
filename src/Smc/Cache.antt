-- ===== src/Smc/Cache.antt =====
-- src/smc/cache.rs: the size and type of the keys that were asked for, in 256 slots. A slot is
-- chosen by the low byte of the key and does not hold the key.
pub mod Laws
use fand.Prelude.{ℕ, ◌%◌, Option, none, some, List, get_or, set, replicate}

pub record KeyInfoCache : Type 0 where
  pub slots : List (Option (ℕ × ℕ))  -- data_size, data_type

abbrev pub cache_size : ℕ
cache_size = 256

unfoldable pub new : KeyInfoCache
new = record { slots = replicate cache_size none }

unfoldable pub get : KeyInfoCache → ℕ → Option (ℕ × ℕ)
get c fourcc = get_or c.slots (fourcc % cache_size) none

unfoldable pub put : KeyInfoCache → ℕ → ℕ → ℕ → KeyInfoCache
put c fourcc data_size data_type = record {
  slots = set c.slots (fourcc % cache_size) (some (data_size, data_type));
}

unfoldable pub invalidate : KeyInfoCache → ℕ → KeyInfoCache
invalidate c fourcc = record { slots = set c.slots (fourcc % cache_size) none }
