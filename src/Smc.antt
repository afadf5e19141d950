-- ===== src/Smc.antt =====
-- The SMC side of the daemon, src/smc: values, writable keys and the ring of round trips.
pub mod Value
pub mod Keys
pub mod SingleInstance
pub mod Error
pub mod RoundTrip
pub mod Cache
pub mod Action
pub mod Ffi
pub mod Unlock
pub mod Session
pub mod Signal
pub mod PanicHook
pub mod Race
pub mod Enumerate
pub mod Selftest
pub mod Simulated
mod Tests
