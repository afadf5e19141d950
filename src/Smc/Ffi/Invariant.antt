-- ===== src/Smc/Ffi/Invariant.antt =====
-- src/smc/ffi.rs: what the methods of a connection keep, from what one call of the kernel, one
-- change of the cache and one reading of the clock keep.
use fand.Prelude.{
  not, length, ltb, ◌==◌, ℕ, ◌≤◌, ◌≢◌, Option, none, some, List, ◌∷◌, [], ◌⊎◌, inl, inr, min, arith,
}
use fand.F32.{F32}
use fand.Smc.Value
use fand.Smc.Value.{SmcValueError, decode_flt}
use fand.Smc.Error.{SmcError, size_mismatch}
use fand.Smc.Keys.{WritableKey, fourcc}
use fand.Smc.Cache
use fand.Smc.Action.{}
use fand.Smc.Action.Invariant.{
  Keeps, ok_keeps, fail_keeps, if_keeps, ask_keeps, fail_if_keeps, modify_keeps, on_error_keeps,
  bind_keeps, then_keeps,
}
use fand.Smc.Ffi.{SmcParamStruct, Device, SmcConnection, call_struct, wall_clock_ns}
use fand.Smc.Ffi.Read.{
  read_sized, as_u8, as_f32, KeyInfo, expect_type, decoded, decoded_flt, invalidate, not_found,
  stored, read_key_info_or, read_key_info, read_key, read_u8, read_u32, read_key_at_index,
  is_missing, read_f32,
}
use fand.Smc.Ffi.Write.{
  smc_cmd_write_key, writing, write_sized, write_key, write_u8, write_raw_for_research,
}

-- A predicate that a call with an allowed input keeps. Every input that does not write is allowed.
pub record IsKept {D : Type 0} (sys : Device D) (Allowed : SmcParamStruct → Type 0)
    (P : SmcConnection D → Type 0) : Type 0 where
  pub call :
      (cmd : ℕ) (input : SmcParamStruct)
      → Allowed (record input { data8 = cmd })
      → Keeps P (call_struct sys cmd input)
  pub clock : Keeps P (wall_clock_ns sys)
  pub put :
      (c : SmcConnection D) (key data_size data_type : ℕ)
      → data_size ≤ 32
      → P c
      → P (record c { cache = Cache.put c.cache key data_size data_type })
  pub forget : (c : SmcConnection D) (key : ℕ) → P c → P (invalidate key c)
  pub reading : (input : SmcParamStruct) → input.data8 ≢ smc_cmd_write_key → Allowed input

module _ {S : Type 0} {P : S → Type 0} where
  expect_type_keeps : (key expected : ℕ) (ki : KeyInfo) → Keeps P (expect_type key expected ki)
  unfolding expect_type
  expect_type_keeps key expected ki = fail_if_keeps _ _

  decoded_keeps :
      {A : Type 0} (key expected : ℕ) (ki : KeyInfo) (r : SmcValueError ⊎ A)
      → Keeps P (decoded key expected ki r)
  unfolding decoded
  decoded_keeps key expected ki (inl e) = fail_keeps _
  decoded_keeps key expected ki (inr v) = ok_keeps _

  decoded_flt_keeps :
      (key : ℕ) (ki : KeyInfo) (r : SmcValueError ⊎ F32) → Keeps P (decoded_flt key ki r)
  unfolding decoded_flt
  decoded_flt_keeps key ki (inr v) = ok_keeps _
  decoded_flt_keeps key ki (inl Value.invalid_float) = fail_keeps _
  decoded_flt_keeps key ki (inl (Value.size_mismatch a b)) = fail_keeps _

module _ {D : Type 0} {sys : Device D} {Allowed : SmcParamStruct → Type 0}
    {P : SmcConnection D → Type 0} (k : IsKept sys Allowed P) where
  stored_keeps : (key : ℕ) (output : SmcParamStruct) → Keeps P (stored key output)
  unfolding stored
  stored_keeps key output =
      then_keeps
        (then_keeps (fail_if_keeps _ _) (
          modify_keeps _ (λ c p. k.put c key (min output.key_info.data_size 32) _ (omega arith) p)))
        (ok_keeps _)

  not_found_keeps : {A : Type 0} (key : ℕ) (e : SmcError) → Keeps P (not_found {A = A} key e)
  unfolding not_found
  not_found_keeps key e =
      if_keeps (is_missing e) (then_keeps (modify_keeps _ (λ c p. k.forget c key p)) (fail_keeps _))
        (fail_keeps _)

  call_keeps :
      (cmd : ℕ) (input : SmcParamStruct)
      → cmd ≢ smc_cmd_write_key
      → Keeps P (call_struct sys cmd input)
  call_keeps cmd input h = k.call cmd input (k.reading _ h)

  read_key_info_or_keeps :
      (key : ℕ) (cached : Option (ℕ × ℕ)) → Keeps P (read_key_info_or sys key cached)
  unfolding read_key_info_or
  read_key_info_or_keeps key (some (data_size, data_type)) = ok_keeps _
  read_key_info_or_keeps key none =
      on_error_keeps (call_keeps _ _ (omega arith)) (not_found_keeps key) (stored_keeps key)

  pub read_key_info_keeps : (key : ℕ) → Keeps P (read_key_info sys key)
  unfolding read_key_info
  read_key_info_keeps key = bind_keeps (ask_keeps _) (read_key_info_or_keeps key)

  pub read_key_keeps : (key : ℕ) → Keeps P (read_key sys key)
  unfolding read_key read_sized
  read_key_keeps key =
      bind_keeps (read_key_info_keeps key) (λ ki.
        on_error_keeps (call_keeps _ _ (omega arith)) (not_found_keeps key) (λ o. ok_keeps _))

  pub read_u8_keeps : (key : ℕ) → Keeps P (read_u8 sys key)
  unfolding read_u8 as_u8
  read_u8_keeps key =
      bind_keeps (read_key_keeps key)
        (λ r. then_keeps (expect_type_keeps _ _ r.0) (decoded_keeps _ _ r.0 _))

  pub read_u32_keeps : (key : ℕ) → Keeps P (read_u32 sys key)
  unfolding read_u32
  read_u32_keeps key =
      bind_keeps (read_key_keeps key)
        (λ r. then_keeps (expect_type_keeps _ _ r.0) (decoded_keeps _ _ r.0 _))

  pub read_key_at_index_keeps : (index : ℕ) → Keeps P (read_key_at_index sys index)
  unfolding read_key_at_index
  read_key_at_index_keeps index = bind_keeps (call_keeps _ _ (omega arith)) (λ output. ok_keeps _)

  pub read_f32_keeps : (key : ℕ) → Keeps P (read_f32 sys key)
  unfolding read_f32 as_f32
  read_f32_keeps key =
      bind_keeps (read_key_keeps key)
        (λ r. then_keeps (expect_type_keeps _ _ r.0) (decoded_flt_keeps _ r.0 _))

  write_sized_keeps :
      (key : ℕ) (bytes : List ℕ) (ki : KeyInfo)
      → Allowed (record (writing key ki bytes) { data8 = smc_cmd_write_key })
      → Keeps P (write_sized sys key bytes ki)
  unfolding write_sized
  write_sized_keeps key bytes ki h =
      then_keeps
        (fail_if_keeps (not (length bytes == ki.data_size))
          (size_mismatch key ki.data_size (length bytes)))
        (then_keeps (fail_if_keeps (ltb 32 ki.data_size) (size_mismatch key 32 ki.data_size))
          (bind_keeps (k.call smc_cmd_write_key (writing key ki bytes) h) (λ o. ok_keeps _)))

  pub write_u8_keeps :
      (key : WritableKey) (value : ℕ)
      → ((ki : KeyInfo)
          → Allowed (record (writing (fourcc key) ki (value ∷ [])) { data8 = smc_cmd_write_key }))
      → Keeps P (write_u8 sys key value)
  unfolding write_u8 write_key
  write_u8_keeps key value h = then_keeps (fail_if_keeps _ _) (
      bind_keeps (read_key_info_keeps (fourcc key))
        (λ ki. write_sized_keeps (fourcc key) (value ∷ []) ki (h ki)))

  pub write_raw_keeps :
      (key : ℕ) (bytes : List ℕ)
      → ((ki : KeyInfo) → Allowed (record (writing key ki bytes) { data8 = smc_cmd_write_key }))
      → Keeps P (write_raw_for_research sys key bytes)
  unfolding write_raw_for_research
  write_raw_keeps key bytes h =
      bind_keeps (read_key_info_keeps key) (λ ki. write_sized_keeps key bytes ki (h ki))
