-- ===== src/Cli.antt =====
-- The command line, src/cli.
pub mod Parse
pub mod Set
pub mod Run
pub mod Research
pub mod Force
pub mod Probe
pub mod Keys
pub mod Selftest
mod Tests
