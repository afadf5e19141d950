-- ===== src/Smc/Session.antt =====
-- src/smc/write_session.rs: the owner of the write path. The lock on the file is left out, and the
-- thread of the signals is whether its handle is still held. A session's identifier is a number.
pub mod Unlocking
pub mod Commit
pub mod Teardown
pub mod Selftest
pub mod Writes
pub mod Invariant
pub mod Acquire
mod Tests
use fand.Prelude.{ℕ, Bool, Option, none, some, List, ◌==◌, if◌then◌else◌}
use fand.F32.{F32}
use fand.Smc.Error.{Fan}
use fand.Smc.Keys.{fan_key_fourcc}
use fand.Smc.RoundTrip.{RoundTripRing, push}
use fand.Smc.RoundTrip.Record.{RoundTripRecord}
use fand.Smc.Action.{Action, ◌>>=◌, ok, ask, modify}
use fand.Smc.Ffi.{Device, SmcConnection, wall_clock_ns}
use fand.Smc.Ffi.Read.{read_f32}
use fand.Smc.Ffi.Verified.{Writer}
use fand.Smc.Unlock
use fand.Smc.Unlock.{DiagnosticUnlockSession}

pub record WriteSession (D : Type 0) : Type 0 where
  pub conn : SmcConnection D
  pub fans : List ℕ
  pub fan_envelopes : List Fan
  pub round_trips : RoundTripRing ℕ
  pub unlock : Option DiagnosticUnlockSession
  pub tear_down_once : Bool
  pub signal_thread : Bool
  pub session_id : ℕ

-- `iter().find(|f| f.index == index)`.
unfoldable pub find_fan : ℕ → List Fan → Option Fan
find_fan index List.[] = none
find_fan index (List.◌∷◌ f fs) = if f.index == index then some f else find_fan index fs

module _ {D : Type 0} where
  unfoldable pub fan_envelope : WriteSession D → ℕ → Option Fan
  fan_envelope s index = find_fan index s.fan_envelopes

  -- A method of the connection, and one of the connection with the ring.
  unfoldable pub on_conn : {A : Type 0} → Action (SmcConnection D) A → Action (WriteSession D) A
  on_conn m s = let r = m s.conn in (r.0, record s { conn = r.1 })

  unfoldable pub on_writer : {A : Type 0} → Action (Writer D) A → Action (WriteSession D) A
  on_writer m s =
      let r = m (s.conn, s.round_trips) in (r.0, record s { conn = r.1.0; round_trips = r.1.1 })

  unfoldable pub record_trip : RoundTripRecord → Action (WriteSession D) Unit
  record_trip trip =
      modify (λ (s : WriteSession D). record s { round_trips = push s.round_trips trip })

  unfoldable pub set_unlock : Option DiagnosticUnlockSession → Action (WriteSession D) Unit
  set_unlock u = modify (λ (s : WriteSession D). record s { unlock = u })

module _ {D : Type 0} (sys : Device D) where
  unfoldable pub clock : Action (WriteSession D) ℕ
  clock = on_conn (wall_clock_ns sys)

  unfoldable pub read_actual_rpm : ℕ → Action (WriteSession D) F32
  read_actual_rpm fan_index = on_conn (read_f32 sys (fan_key_fourcc b'A' b'c' fan_index))

  -- `unlock.heartbeat()`, where there is an unlock.
  unfoldable pub rearm : Option DiagnosticUnlockSession → Action (WriteSession D) Unit
  rearm none = ok tt
  rearm (some u) = clock >>= λ now. set_unlock (some (Unlock.heartbeat u now))

  -- `heartbeat` and `heartbeat_unlock`.
  unfoldable pub heartbeat : Action (WriteSession D) Unit
  heartbeat = ask (λ s. s.unlock) >>= rearm
