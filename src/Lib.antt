-- ===== src/Lib.antt =====
-- fand: a fan control daemon for Apple Silicon Macs (src/).
--
-- The daemon reads temperatures, computes a speed for each fan once per tick and writes it to the
-- SMC. A tick is a pipeline: the readings are fused to one temperature, that is smoothed, mapped by
-- a curve, held by hysteresis and limited in its fall; then a panic latch may ask for full speed,
-- and the result is clamped to the fan's envelope. The adapter turns the speed into one of two
-- modes of the fan, which the write session commits over the connection; at the end the session
-- gives all fans back, as the signal thread and the panic hook do on connections of their own, and a
-- watchdog ends a daemon that no longer ticks. The command line parses a fan index and a speed,
-- and each write to the SMC is recorded in a ring.
--
-- Which file models which part:
--   F32               f32 of the language: IEEE 754 binary32, rounded to nearest, ties to even. A
--                     finite value is an integer multiple of 2 ^ -149; the sign of zero is left
--                     out: a zero is encoded as the positive one; a verified write of a
--                     float, which compares the bytes, takes it as its 32 bits. F32/Parse is `str::parse`.
--   F32/*             its order, that rounding keeps the order, exact cases and units.
--   Control/Fusion    src/control/fusion.rs      FusionMode, fuse
--   Control/Ema       src/control/ema.rs         smooth
--   Control/Curve     src/control/curve.rs       evaluate (the while loop is search_from)
--   Control/Hysteresis src/control/hysteresis.rs HysteresisState, apply
--   Control/Slew      src/control/slew.rs        limit
--   Control/Panic     src/control/panic.rs       PanicState, check
--   Control/Clamp     src/control/state.rs       ClampedRpm::new, was_clamped
--   Control/Adapter   src/control/adapter.rs     AppleSiliconAdapter::decide
--   Control/Loop      src/control/loop.rs        FanControlState, tick
--   Control/Daemon    src/control/loop.rs        DaemonState, record_latency
--   Config/Schema     src/config/schema.rs       Config, FanBinding, ValidationError
--   Config/Validate   src/config/validate.rs     validate
--   Config/Load       src/config/load.rs, src/config/reload.rs   load_config, reload_config
--   Smc/Value         src/smc/types.rs           the decoders and encoders; Value/Float has encode_flt
--   Smc/Keys          src/smc/keys.rs            WritableKey, fourcc
--   Smc/RoundTrip     src/smc/round_trip.rs      RoundTripRecord, RoundTripRing
--   Smc/Cache         src/smc/cache.rs          KeyInfoCache
--   Smc/Action        methods with a state and an error, and what they keep
--   Smc/Ffi           src/smc/ffi.rs            SmcConnection: call_struct, close
--   Smc/Ffi/Read, Write, Verified (with Float)   src/smc/ffi.rs   its reads, writes, and writes read back
--   Smc/Unlock        src/smc/unlock.rs         DiagnosticUnlockSession, watchdog_loop
--   Smc/Session       src/smc/write_session.rs  WriteSession: fan_envelope, heartbeat
--   Smc/Session/Unlocking, Commit, Teardown   src/smc/write_session.rs
--                     begin_diagnostic_unlock, commit_set_fan, teardown
--   Smc/Session/Selftest src/smc/write_session.rs  run_selftest
--   Smc/Selftest      src/smc/selftest.rs       SelftestReport, classify_fan, median_f32
--   Smc/Enumerate     src/smc/enumerate.rs      enumerate_fans, probe_mode_key
--   Smc/Signal        src/smc/signal.rs         the signal thread, teardown_and_exit
--   Smc/PanicHook     src/smc/panic_hook.rs     seal_for_panic, panic_hook_body
--   Smc/Race          src/smc/write_session.rs, src/smc/signal.rs   teardown, teardown_and_exit
--   Smc/SingleInstance src/smc/single_instance.rs  FlockGuard::try_acquire_at; Pid is the
--                     parsing of the holder's number
--   Smc/Session/Acquire src/smc/write_session.rs  acquire, flock_error_to_smc_error
--   Smc/Simulated     a machine for the tests
--   Smc/Error         src/smc/ffi.rs, src/smc/enumerate.rs   SmcError, error_code, Fan
--   Cli/Parse         src/cli/parse.rs           parse_fan_index, parse_rpm
--   Cli/Set           src/cli/set.rs             parse_args, run_with_code
--   Cli/Run           src/cli/run.rs            execute_commit: seeding and ticks
--   Cli/Run/Sleep     src/cli/run.rs            the sleep between two ticks
--   Cli/Research      src/cli/force.rs, src/cli/probe.rs   what these two share
--   Cli/Force         src/cli/force.rs          execute, from the open connection on
--   Cli/Probe         src/cli/probe.rs          execute and run_enumerate, likewise
--   Cli/Keys          src/cli/keys.rs           execute and its modes
--   Cli/Keys/Args, Payload   src/cli/keys.rs    parse_args, the bytes of type:value
--   Cli/Selftest      src/cli/selftest.rs       parse_args, run_with_code
--   Correlation       src/correlation.rs        SessionId::new
-- In each of these Laws, Safety, Exact, Accepts, Refine, Rpm, Invariant, Cases,
-- Cached, Writes, Releases, Yields, Ends, Traced and ReadsBack hold proofs, and Tests witnesses.
--
-- How the code is read: a function that takes `&mut self` returns the new state, in a pair with its
-- result where it has one. An `Instant` is its nanoseconds, and `duration_since` stops at 0, as
-- the language documents. The environment variable FAND_SAFE_MIN_RPM is an argument, `none` where
-- it is unset or no number. Integers keep their width where the code saturates. The retries of a
-- call of the kernel take fuel, two for the two retries that there can be; all other loops are
-- recursion on a list or on a count. A text is its bytes. Parsing a decimal as
-- f32 is the language's: the nearest float. A text that the code formats is its format string and
-- its arguments. The calls of the system and the TOML parser are fields of Config.Load.System; the
-- write session of `fand set` is Cli.Set.Session; the kernel and the clock of a connection are
-- Smc.Ffi.Device, with the machine as the connection's last field. The file system of the
-- lock is Smc.SingleInstance.System; time and random bytes of a session's identifier are arguments.
--
-- Not modelled: the opening of a connection, the dry run and the arguments of `fand run`,
-- `fand force-rpm` and `fand probe`, the curve command, the search for agents that deny the access,
-- log lines and the JSON output: they call the system, drive the hardware or only format text.
pub mod Prelude
pub mod F32
pub mod Control
pub mod Smc
pub mod Config
pub mod Cli
pub mod Correlation
