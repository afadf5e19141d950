-- ===== src/Smc/PanicHook/Tests.antt =====
-- Three panics of the concrete machine's process.
