-- ===== src/Smc/Ffi/Write.antt =====
-- src/smc/ffi.rs: the writes of a connection, and those that are read back.
use fand.Prelude.{ℕ, not, ◌==◌, ltb, List, [], ◌∷◌, ◌++◌, length, drop, ◌⊎◌, inl, inr}
use fand.Smc.Error.{type_mismatch, size_mismatch, invalid_float}
use fand.Smc.Value.{SmcValueError}
use fand.Smc.Value.Float.{encode_bits}
use fand.Smc.Keys.{WritableKey, fan_mode, ftst, fourcc, data_type, type_ui8, type_flt}
use fand.Smc.Action.{Action, ◌>>=◌, ◌>>◌, ok, fail, fail_if}
use fand.Smc.Ffi.{SmcParamStruct, Device, SmcConnection, call_struct}
use fand.Smc.Ffi.Read.{KeyInfo, read_key_info, asking_for}

abbrev pub smc_cmd_write_key : ℕ
smc_cmd_write_key = 6

-- The 32 bytes with the payload copied in at the front.
abbrev pub writing : ℕ → KeyInfo → List ℕ → SmcParamStruct
writing fourcc ki bytes =
    let input = asking_for fourcc ki in
    record input { bytes = bytes ++ drop (length bytes) input.bytes }

-- `encode_flt` with its error as the connection's.
unfoldable pub encoded : {S : Type 0} → ℕ → SmcValueError ⊎ List ℕ → Action S (List ℕ)
encoded fourcc (inl e) = fail (invalid_float fourcc)
encoded fourcc (inr bytes) = ok bytes

module _ {D : Type 0} (sys : Device D) where
  -- `write_key` and `write_raw_for_research` once the size and type are known.
  unfoldable pub write_sized : ℕ → List ℕ → KeyInfo → Action (SmcConnection D) Unit
  write_sized fourcc bytes ki = do
    fail_if (not (length bytes == ki.data_size)) (size_mismatch fourcc ki.data_size (length bytes))
    fail_if (ltb 32 ki.data_size) (size_mismatch fourcc 32 ki.data_size)
    _ ← call_struct sys smc_cmd_write_key (writing fourcc ki bytes)
    ok tt

  unfoldable pub write_raw_for_research : ℕ → List ℕ → Action (SmcConnection D) Unit
  write_raw_for_research fourcc bytes = read_key_info sys fourcc >>= write_sized fourcc bytes

  unfoldable pub write_key : WritableKey → List ℕ → Action (SmcConnection D) Unit
  write_key key value_bytes =
      read_key_info sys (fourcc key) >>= write_sized (fourcc key) value_bytes

  unfoldable pub write_u8 : WritableKey → ℕ → Action (SmcConnection D) Unit
  write_u8 key value =
      fail_if (not (data_type key == type_ui8))
        (type_mismatch (fourcc key) type_ui8 (data_type key))
      >> write_key key (value ∷ [])

  -- The float is its 32 bits.
  unfoldable pub write_f32 : WritableKey → ℕ → Action (SmcConnection D) Unit
  write_f32 key value = do
    fail_if (not (data_type key == type_flt)) (type_mismatch (fourcc key) type_flt (data_type key))
    bytes ← encoded (fourcc key) (encode_bits value)
    write_key key bytes

  unfoldable pub probe_write_ftst_zero : Action (SmcConnection D) Unit
  probe_write_ftst_zero = write_u8 ftst 0

  unfoldable pub force_write_auto_mode : ℕ → Action (SmcConnection D) Unit
  force_write_auto_mode fan_idx = write_u8 (fan_mode fan_idx) 0

  unfoldable pub force_write_ftst_zero : Action (SmcConnection D) Unit
  force_write_ftst_zero = write_u8 ftst 0
