-- ===== src/Smc/Ffi/Read.antt =====
-- src/smc/ffi.rs: the reads of a connection. The answer of a key's size and type is kept in the
-- cache, and a connection asks the cache first.
use fand.Prelude.{
  ℕ, Bool, false, not, ◌&&◌, ◌==◌, min, Option, none, some, List, ◌⊎◌, inl, inr, if◌then◌else◌,
}
use fand.F32.{F32}
use fand.Smc.Error.{
  SmcError, key_not_found, smc_result, empty_response, type_mismatch, invalid_float,
}
use fand.Smc.Value
use fand.Smc.Value.{from_le_bytes, SmcValueError, decode_ui8, decode_ui32, decode_flt}
use fand.Smc.Keys.{type_ui8, type_ui32, type_flt}
use fand.Smc.Cache
use fand.Smc.Action.{Action, ◌>>=◌, ◌>>◌, ok, fail, ask, modify, fail_if, on_error}
use fand.Smc.Ffi.{SmcParamStruct, zeroed, Device, SmcConnection, call_struct, smc_err_key_not_found}

pub record KeyInfo : Type 0 where
  pub data_size : ℕ
  pub data_type : ℕ

abbrev pub smc_cmd_read_key : ℕ
smc_cmd_read_key = 5

abbrev pub smc_cmd_get_key_from_idx : ℕ
smc_cmd_get_key_from_idx = 8

abbrev pub smc_cmd_get_key_info : ℕ
smc_cmd_get_key_info = 9

-- The type that a key must have.
unfoldable pub expect_type : {S : Type 0} → ℕ → ℕ → KeyInfo → Action S Unit
expect_type fourcc expected ki =
    fail_if (not (ki.data_type == expected)) (type_mismatch fourcc expected ki.data_type)

-- A value that was read as its type.
unfoldable pub decoded : {S A : Type 0} → ℕ → ℕ → KeyInfo → SmcValueError ⊎ A → Action S A
decoded fourcc expected ki (inl e) = fail (type_mismatch fourcc expected ki.data_type)
decoded fourcc expected ki (inr v) = ok v

-- The three arms of the match in `read_f32`.
unfoldable pub decoded_flt : {S : Type 0} → ℕ → KeyInfo → SmcValueError ⊎ F32 → Action S F32
decoded_flt fourcc ki (inr v) = ok v
decoded_flt fourcc ki (inl Value.invalid_float) = fail (invalid_float fourcc)
decoded_flt fourcc ki (inl (Value.size_mismatch _ _)) =
    fail (type_mismatch fourcc type_flt ki.data_type)

-- The result byte for a key that is not there.
unfoldable pub is_missing : SmcError → Bool
is_missing (smc_result cmd result_byte) = result_byte == smc_err_key_not_found
is_missing e = false

-- A payload as the type that its key must have.
module _ {S : Type 0} where
  unfoldable pub as_u8 : ℕ → KeyInfo × List ℕ → Action S ℕ
  as_u8 fourcc (ki, bytes) =
      expect_type fourcc type_ui8 ki >> decoded fourcc type_ui8 ki (decode_ui8 bytes ki.data_size)

  unfoldable pub as_f32 : ℕ → KeyInfo × List ℕ → Action S F32
  as_f32 fourcc (ki, bytes) =
      expect_type fourcc type_flt ki >> decoded_flt fourcc ki (decode_flt bytes ki.data_size)

module _ {D : Type 0} where
  unfoldable pub invalidate : ℕ → SmcConnection D → SmcConnection D
  invalidate fourcc c = record c { cache = Cache.invalidate c.cache fourcc }

  -- An error of the kernel: a key that is not there leaves the cache.
  unfoldable pub not_found : {A : Type 0} → ℕ → SmcError → Action (SmcConnection D) A
  not_found fourcc e =
      if is_missing e then modify (invalidate fourcc) >> fail (key_not_found fourcc) else fail e

  -- The answer to a question for a key's size and type.
  unfoldable pub stored : ℕ → SmcParamStruct → Action (SmcConnection D) KeyInfo
  stored fourcc output =
      let clamped_size = min output.key_info.data_size 32 in
      let data_type = output.key_info.data_type in
      fail_if (clamped_size == 0 && data_type == 0) (empty_response fourcc)
      >> modify (λ c. record c { cache = Cache.put c.cache fourcc clamped_size data_type })
      >> ok (record { data_size = clamped_size; data_type = data_type })

abbrev pub asking : ℕ → SmcParamStruct
asking fourcc = record zeroed { key = fourcc }

abbrev pub asking_for : ℕ → KeyInfo → SmcParamStruct
asking_for fourcc ki = record zeroed {
  key = fourcc;
  key_info = record { data_size = ki.data_size; data_type = ki.data_type; data_attributes = 0 };
}

module _ {D : Type 0} (sys : Device D) where
  -- `read_key_info` on what the cache has.
  unfoldable pub read_key_info_or : ℕ → Option (ℕ × ℕ) → Action (SmcConnection D) KeyInfo
  read_key_info_or fourcc (some (data_size, data_type)) =
      ok (record { data_size = data_size; data_type = data_type })
  read_key_info_or fourcc none =
      on_error (call_struct sys smc_cmd_get_key_info (asking fourcc)) (not_found fourcc)
        (stored fourcc)

  unfoldable pub read_key_info : ℕ → Action (SmcConnection D) KeyInfo
  read_key_info fourcc = do
    cached ← ask (λ c. Cache.get c.cache fourcc)
    read_key_info_or fourcc cached

  -- `read_key` once the size and type are known.
  unfoldable pub read_sized : ℕ → KeyInfo → Action (SmcConnection D) (KeyInfo × List ℕ)
  read_sized fourcc ki =
      on_error (call_struct sys smc_cmd_read_key (asking_for fourcc ki)) (not_found fourcc)
        (λ output. ok (ki, output.bytes))

  unfoldable pub read_key : ℕ → Action (SmcConnection D) (KeyInfo × List ℕ)
  read_key fourcc = read_key_info fourcc >>= read_sized fourcc

  unfoldable pub read_u8 : ℕ → Action (SmcConnection D) ℕ
  read_u8 fourcc = read_key fourcc >>= as_u8 fourcc

  unfoldable pub read_u32 : ℕ → Action (SmcConnection D) ℕ
  read_u32 fourcc = do
    (ki, bytes) ← read_key fourcc
    expect_type fourcc type_ui32 ki
    decoded fourcc type_ui32 ki (decode_ui32 bytes ki.data_size)

  unfoldable pub read_f32 : ℕ → Action (SmcConnection D) F32
  read_f32 fourcc = read_key fourcc >>= as_f32 fourcc

  -- The same method with the 32 bits of the float as its result.
  unfoldable pub read_f32_bits : ℕ → Action (SmcConnection D) ℕ
  read_f32_bits fourcc = read_key fourcc >>= λ r. as_f32 fourcc r >> ok (from_le_bytes r.1)

  unfoldable pub read_key_at_index : ℕ → Action (SmcConnection D) ℕ
  read_key_at_index index = do
    output ← call_struct sys smc_cmd_get_key_from_idx (record zeroed { data32 = index })
    ok output.key

  -- Always asks the kernel, for the attributes are not in the cache.
  unfoldable pub read_key_info_full : ℕ → Action (SmcConnection D) (KeyInfo × ℕ)
  read_key_info_full fourcc =
      on_error (call_struct sys smc_cmd_get_key_info (asking fourcc)) (not_found fourcc)
        (λ output. stored fourcc output >>= λ ki. ok (ki, output.key_info.data_attributes))
