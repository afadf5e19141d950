-- ===== src/Smc/Ffi/Verified/ReadsBack.antt =====
-- What the write of a float that is read back promises on success.
use fand.Prelude.{ℕ, ◌≡◌, List, inr}
use fand.Prelude.Text.{Text}
use fand.Smc.Value.Float.{to_le_bytes}
use fand.Smc.Keys.{WritableKey, fourcc}
use fand.Smc.RoundTrip.Record
use fand.Smc.RoundTrip.Record.{mismatch, new_match}
use fand.Smc.Action.{Action}
use fand.Smc.Ffi.{Device, SmcConnection}
use fand.Smc.Ffi.Read.{read_f32_bits}

module _ {D : Type 0} (sys : Device D) where
  -- The float that is read from the key afterwards has the bytes that were to be written.
  abbrev pub ReadsBack : WritableKey → List ℕ → SmcConnection D → Type 0
  ReadsBack key expected c =
      (readback : ℕ) × ((read_f32_bits sys (fourcc key) c).0 ≡ inr readback)
      × (to_le_bytes readback ≡ expected)
