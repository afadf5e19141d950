-- ===== src/Cli/Probe/Tests.antt =====
-- `fand probe` on the concrete machine.
