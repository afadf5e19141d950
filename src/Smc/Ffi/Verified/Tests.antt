-- ===== src/Smc/Ffi/Verified/Tests.antt =====
-- A verified write of 65.0 to the target of fan 0, on the concrete machine.
use fand.Prelude.{ℕ, ◌⊎◌}
use fand.Smc.Ffi.Verified.{Writer}
use fand.Smc.Ffi.Verified.ReadsBack.{ReadsBack}
use fand.Smc.Simulated.{Memory, session}

abbrev writer : Writer Memory
writer = (session.conn, session.round_trips)

-- 65.0.
abbrev value_bits : ℕ
value_bits = 1115815936
