-- ===== src/Smc/Keys/Laws.antt =====
-- The codes of the whitelist are distinct.
use fand.Prelude.{◌<◌, ◌≡◌, refl, ap, arith}
use fand.Smc.Value.{from_be_bytes}
use fand.Smc.Keys.{WritableKey, fan_mode, fan_target, ftst, fourcc}

-- The index is a byte.
abbrev pub IsByte : WritableKey → Type 0
IsByte (fan_mode i) = i < 256
IsByte (fan_target i) = i < 256
IsByte ftst = Unit {0}

-- Two keys of the whitelist, with indices of a byte, that write to the same code are the same key.
pub fourcc_injective : (k l : WritableKey) → IsByte k → IsByte l → fourcc k ≡ fourcc l → k ≡ l
unfolding fourcc from_be_bytes
fourcc_injective (fan_mode i) (fan_mode j) p q h = ap fan_mode (omega arith)
fourcc_injective (fan_mode i) (fan_target j) p q h = absurd (omega arith)
fourcc_injective (fan_mode i) ftst p q h = absurd (omega arith)
fourcc_injective (fan_target i) (fan_mode j) p q h = absurd (omega arith)
fourcc_injective (fan_target i) (fan_target j) p q h = ap fan_target (omega arith)
fourcc_injective (fan_target i) ftst p q h = absurd (omega arith)
fourcc_injective ftst (fan_mode j) p q h = absurd (omega arith)
fourcc_injective ftst (fan_target j) p q h = absurd (omega arith)
fourcc_injective ftst ftst p q h = refl
