-- ===== src/Cli/Force/Ends.antt =====
-- How `fand force-rpm` ends.
use fand.F32.{F32}
use fand.Smc.Action.{Action}
use fand.Smc.Action.Ends.{Ends}
