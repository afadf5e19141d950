-- ===== src/Control/Ema.antt =====
-- src/control/ema.rs: exponential smoothing.
use fand.F32.{F32, add, sub, mul, of_ℕ}

unfoldable pub smooth : F32 → F32 → F32 → F32
smooth prev raw alpha = add (mul alpha raw) (mul (sub (of_ℕ 1) alpha) prev)
