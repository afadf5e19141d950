-- ===== src/Smc/Ffi/Verified/Float.antt =====
-- src/smc/ffi.rs: the write of a float that is read back and compared byte by byte. A
-- float is its 32 bits here, so that the two zeros are told apart.
use fand.Prelude.{ℕ, not, none, List, [], if◌then◌else◌}
use fand.Prelude.Text.{Text, same_text}
use fand.Smc.Error.{write_readback_mismatch}
use fand.Smc.Value.Float.{to_le_bytes, encode_bits}
use fand.Smc.Keys.{WritableKey, fourcc}
use fand.Smc.RoundTrip.Record
use fand.Smc.RoundTrip.Record.{write_failed, readback_failed, mismatch, new_match}
use fand.Smc.Action.{Action, ◌>>=◌, ◌>>◌, ok, fail, on_error}
use fand.Smc.Ffi.{Device, wall_clock_ns}
use fand.Smc.Ffi.Read.{read_f32_bits}
use fand.Smc.Ffi.Write.{encoded, write_f32}
use fand.Smc.Ffi.Verified.{Writer, refused, on_connection, record_trip}

module _ {D : Type 0} where
  unfoldable pub compare_bytes : ℕ → List ℕ → ℕ → ℕ → List ℕ → Action (Writer D) Unit
  compare_bytes fourcc expected_bytes session timestamp_ns got_bytes =
      if not (same_text got_bytes expected_bytes)
      then record_trip (Record.new timestamp_ns fourcc expected_bytes got_bytes mismatch)
        >> fail
            (write_readback_mismatch fourcc expected_bytes 4 got_bytes 4 session timestamp_ns none)
      else record_trip (new_match timestamp_ns fourcc expected_bytes got_bytes) >> ok tt

module _ {D : Type 0} (sys : Device D) where
  unfoldable pub read_back_f32 : WritableKey → List ℕ → ℕ → ℕ → Action (Writer D) Unit
  read_back_f32 key expected_bytes session timestamp_ns =
      on_error (on_connection (read_f32_bits sys (fourcc key)))
        (λ e.
          record_trip (Record.new timestamp_ns (fourcc key) expected_bytes [] readback_failed)
          >> fail e)
        (λ readback.
          compare_bytes (fourcc key) expected_bytes session timestamp_ns (to_le_bytes readback))

  unfoldable pub write_f32_at : WritableKey → ℕ → Text → ℕ → ℕ → List ℕ → Action (Writer D) Unit
  write_f32_at key value context session timestamp_ns expected_bytes =
      on_error (on_connection (write_f32 sys key value))
        (λ e.
          record_trip (Record.new timestamp_ns (fourcc key) expected_bytes [] write_failed)
          >> fail (refused (fourcc key) context session timestamp_ns e))
        (λ _. read_back_f32 key expected_bytes session timestamp_ns)

  -- A value that is no number is refused before anything is recorded.
  unfoldable pub write_f32_verified : WritableKey → ℕ → Text → ℕ → Action (Writer D) Unit
  write_f32_verified key value context session = do
    timestamp_ns ← on_connection (wall_clock_ns sys)
    expected_bytes ← encoded (fourcc key) (encode_bits value)
    write_f32_at key value context session timestamp_ns expected_bytes
