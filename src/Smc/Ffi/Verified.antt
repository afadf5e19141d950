-- ===== src/Smc/Ffi/Verified.antt =====
-- src/smc/ffi.rs: the write of a byte that is read back, with its record in the ring.
pub mod Laws
pub mod Float
pub mod ReadsBack
mod Tests
use fand.Prelude.{ℕ, not, ◌==◌, none, [], ◌∷◌, if◌then◌else◌}
use fand.Prelude.Text.{Text}
use fand.Smc.Error.{SmcError, smc_result, write_refused, write_readback_mismatch}
use fand.Smc.Keys.{WritableKey, fourcc}
use fand.Smc.RoundTrip.{RoundTripRing, push}
use fand.Smc.RoundTrip.Record
use fand.Smc.RoundTrip.Record.{
  RoundTripRecord, RoundTripOutcome, write_failed, readback_failed, mismatch, new_match,
}
use fand.Smc.Action.{Action, ◌>>=◌, ◌>>◌, ok, fail, modify, on_error}
use fand.Smc.Ffi.{Device, SmcConnection, wall_clock_ns}
use fand.Smc.Ffi.Read.{read_u8}
use fand.Smc.Ffi.Write.{write_u8}

-- A connection and the ring that its verified writes are recorded in.
abbrev pub Writer : Type 0 → Type 0
Writer D = SmcConnection D × RoundTripRing ℕ

-- What the refusal of a write becomes.
unfoldable pub refused : ℕ → Text → ℕ → ℕ → SmcError → SmcError
refused fourcc context session timestamp_ns (smc_result cmd result_byte) =
    write_refused fourcc result_byte context session timestamp_ns
refused fourcc context session timestamp_ns e = e

module _ {D : Type 0} where
  -- A method of the connection, which leaves the ring alone.
  unfoldable pub on_connection : {A : Type 0} → Action (SmcConnection D) A → Action (Writer D) A
  on_connection m (c, ring) = let r = m c in (r.0, (r.1, ring))

  unfoldable pub record_trip : RoundTripRecord → Action (Writer D) Unit
  record_trip trip = modify (λ (w : Writer D). (w.0, push w.1 trip))

  -- What was read back, compared with what was written.
  unfoldable pub compare_u8 : ℕ → ℕ → ℕ → ℕ → ℕ → Action (Writer D) Unit
  compare_u8 fourcc value session timestamp_ns readback =
      if not (readback == value)
      then record_trip (Record.new timestamp_ns fourcc (value ∷ []) (readback ∷ []) mismatch)
        >> fail (
            write_readback_mismatch fourcc (value ∷ 0 ∷ 0 ∷ 0 ∷ []) 1 (readback ∷ 0 ∷ 0 ∷ 0 ∷ []) 1
              session timestamp_ns none)
      else record_trip (new_match timestamp_ns fourcc (value ∷ []) (readback ∷ [])) >> ok tt

module _ {D : Type 0} (sys : Device D) where
  -- After the write, and after a failure of it.
  unfoldable pub read_back : WritableKey → ℕ → ℕ → ℕ → Action (Writer D) Unit
  read_back key value session timestamp_ns =
      on_error (on_connection (read_u8 sys (fourcc key)))
        (λ e.
          record_trip (Record.new timestamp_ns (fourcc key) (value ∷ []) [] readback_failed)
          >> fail e)
        (compare_u8 (fourcc key) value session timestamp_ns)

  unfoldable pub write_u8_at : WritableKey → ℕ → Text → ℕ → ℕ → Action (Writer D) Unit
  write_u8_at key value context session timestamp_ns =
      on_error (on_connection (write_u8 sys key value))
        (λ e.
          record_trip (Record.new timestamp_ns (fourcc key) (value ∷ []) [] write_failed)
          >> fail (refused (fourcc key) context session timestamp_ns e))
        (λ _. read_back key value session timestamp_ns)

  unfoldable pub write_u8_verified : WritableKey → ℕ → Text → ℕ → Action (Writer D) Unit
  write_u8_verified key value context session =
      on_connection (wall_clock_ns sys) >>= write_u8_at key value context session
