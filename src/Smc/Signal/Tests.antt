-- ===== src/Smc/Signal/Tests.antt =====
-- A reload, then two signals to end, on the concrete machine.
use fand.Prelude.{false, none, [], ◌∷◌}
use fand.Smc.Ffi.Laws.{Trace}
use fand.Smc.Simulated.{Memory, connection_on}
use fand.Smc.Signal.{SignalThread}

abbrev thread : SignalThread (Trace × Memory)
thread = record {
  teardown_conn = connection_on ([], []);
  state = record { release_in_progress = false; fans = 0 ∷ []; reload_requested = false };
  exited = none;
}
