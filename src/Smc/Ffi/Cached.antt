-- ===== src/Smc/Ffi/Cached.antt =====
-- src/smc/ffi.rs: the cache after a read, and what it does to later writes of other keys.
use fand.Prelude.{
  ℕ, ◌%◌, ◌≡◌, ◌≢◌, refl, ap, sym, ◌∙◌, subst, ◌&&◌, ◌==◌, Option, none, some, List, [], ◌∷◌, ◌⊎◌,
  inl, inr, if◌then◌else◌, min, arith,
}
use fand.F32.{F32}
use fand.Smc.Error.{SmcError, size_mismatch, empty_response}
use fand.Smc.Value.{from_be_bytes, decode_flt}
use fand.Smc.Keys.{fan_mode, fourcc, fan_key_fourcc, data_type, type_flt}
use fand.Smc.Cache
use fand.Smc.Cache.Laws
use fand.Smc.Action.{continue, ◌>>=◌, ◌>>◌, ok, fail, ask, modify, fail_if}
use fand.Smc.Action.Cases.{bind_inr, on_error_cases, inr_inj}
use fand.Smc.Ffi.{SmcParamStruct, Device, SmcConnection, call_struct}
use fand.Smc.Ffi.Read.{
  read_sized, as_f32, KeyInfo, not_found, stored, asking, asking_for, read_key_info_or,
  read_key_info, read_key, read_f32, expect_type, decoded_flt, smc_cmd_get_key_info,
  smc_cmd_read_key,
}
use fand.Smc.Ffi.Write.{write_sized, write_key, write_u8, force_write_auto_mode}
use fand.Smc.Ffi.Laws.{call_struct-cache}

module _ {D : Type 0} where
  -- The cache has what a read of the key found.
  abbrev pub Knows : ℕ → KeyInfo → SmcConnection D → Type 0
  Knows key ki c = Cache.get c.cache key ≡ some (ki.data_size, ki.data_type)

  not_found_never :
      {A : Type 0} (key : ℕ) (e : SmcError) (c : SmcConnection D) (a : A)
      → (not_found key e c).0 ≢ inr a
  unfolding not_found ◌>>◌ ◌>>=◌ continue modify fail
  not_found_never key e c a h = ground arith

  -- The answer of the kernel is put in the cache, unless it is empty.
  pub stored_lem :
      (key : ℕ) (output : SmcParamStruct) (c : SmcConnection D)
      → let size = min output.key_info.data_size 32 in
        let type = output.key_info.data_type in
        stored key output c ≡ (
          if size == 0 && type == 0 then (inl (empty_response key), c) else (
            inr (record { data_size = size; data_type = type }),
            record c { cache = Cache.put c.cache key size type },
          ))
  unfolding stored ◌>>◌ ◌>>=◌ continue modify fail_if ok
  stored_lem key output c = ground arith

  stored-Knows :
      (key : ℕ) (output : SmcParamStruct) (c : SmcConnection D) (ki : KeyInfo)
      → Cache.Laws.IsValid c.cache
      → (stored key output c).0 ≡ inr ki
      → Knows key ki (stored key output c).1
  stored-Knows key output c ki valid h =
      let size = min output.key_info.data_size 32 in
      let type = output.key_info.data_type in
      let found = Cache.Laws.get-put_self c.cache key size type valid in
      ground (arith, stored_lem key output c)

-- Every fan's mode key ends in the same byte, 'd'.
pub fan_mode_last : (i : ℕ) → fourcc (fan_mode i) % 256 ≡ 100
unfolding fourcc fan_key_fourcc from_be_bytes
fan_mode_last i = omega arith

module _ {D : Type 0} (sys : Device D) where
  read_key_info_or-Knows :
      (key : ℕ) (cached : Option (ℕ × ℕ)) (c : SmcConnection D) (ki : KeyInfo)
      → Cache.Laws.IsValid c.cache
      → Cache.get c.cache key ≡ cached
      → (read_key_info_or sys key cached c).0 ≡ inr ki
      → Knows key ki (read_key_info_or sys key cached c).1
  unfolding read_key_info_or ok
  read_key_info_or-Knows key (some (data_size, data_type)) c ki valid found h =
      subst (λ k. Knows key k c) (inr_inj h) found
  read_key_info_or-Knows key none c ki valid found h =
      let asked = call_struct sys smc_cmd_get_key_info (asking key) in
      elim (on_error_cases asked (not_found key) (stored key) c) [
        | inl (e, failed, whole) ↦
            absurd (not_found_never key e (asked c).1 ki (sym (ap (λ r. r.0) whole) ∙ h))
        | inr (output, answered, whole) ↦
            subst (λ (r : (SmcError ⊎ KeyInfo) × SmcConnection D). Knows key ki r.1) (sym whole)
              (stored-Knows key output (asked c).1 ki
                (subst Cache.Laws.IsValid
                  (sym (call_struct-cache sys smc_cmd_get_key_info (asking key) c)) valid)
                (sym (ap (λ r. r.0) whole) ∙ h))
      ]

  -- What `read_key_info` returned is in the cache after it.
  pub read_key_info-Knows :
      (key : ℕ) (c : SmcConnection D) (ki : KeyInfo)
      → Cache.Laws.IsValid c.cache
      → (read_key_info sys key c).0 ≡ inr ki
      → Knows key ki (read_key_info sys key c).1
  unfolding read_key_info ◌>>=◌ continue ask
  read_key_info-Knows key c ki valid h =
      read_key_info_or-Knows key (Cache.get c.cache key) c ki valid refl h

  read_sized-Knows :
      (key : ℕ) (c : SmcConnection D) (a ki : KeyInfo) (bytes : List ℕ)
      → Knows key a c
      → (read_sized sys key a c).0 ≡ inr (ki, bytes)
      → Knows key ki (read_sized sys key a c).1
  unfolding read_sized ok
  read_sized-Knows key c a ki bytes known h =
      let asked = call_struct sys smc_cmd_read_key (asking_for key a) in
      elim (on_error_cases {B = KeyInfo × List ℕ} asked (not_found key)
        (λ output. ok (a, output.bytes)) c) [
          | inl (e, failed, whole) ↦
              absurd (not_found_never key e (asked c).1 (ki, bytes) (sym (ap (λ r. r.0) whole) ∙ h))
          | inr (output, answered, whole) ↦
              let same : (a, output.bytes) ≡ (ki, bytes) =
                inr_inj (sym (ap (λ r. r.0) whole) ∙ h) in
              rw (ap (λ r. r.1) whole) (
                rw (call_struct-cache sys smc_cmd_read_key (asking_for key a) c)
                  (subst (λ (k : KeyInfo). Knows key k c) (ap (λ r. r.0) same) known))
        ]

  read_key-Knows :
      (key : ℕ) (c : SmcConnection D) (ki : KeyInfo) (bytes : List ℕ)
      → Cache.Laws.IsValid c.cache
      → (read_key sys key c).0 ≡ inr (ki, bytes)
      → Knows key ki (read_key sys key c).1
  unfolding read_key
  read_key-Knows key c ki bytes valid h =
      let (a, found, whole) = bind_inr (read_key_info sys key) (read_sized sys key) c _ h in
      rw (ap (λ r. r.1) whole) (
        read_sized-Knows key (read_key_info sys key c).1 a ki bytes
          (read_key_info-Knows key c a valid found) (sym (ap (λ r. r.0) whole) ∙ h))

  -- Only four bytes of the type `flt` are read as a float.
  as_f32-inr :
      (key : ℕ) (ki : KeyInfo) (bytes : List ℕ) (c : SmcConnection D) (v : F32)
      → (as_f32 key (ki, bytes) c).0 ≡ inr v
      → (ki.data_size ≡ 4) × (ki.data_type ≡ type_flt) × ((as_f32 key (ki, bytes) c).1 ≡ c)
  unfolding as_f32 expect_type decoded_flt decode_flt ◌>>◌ ◌>>=◌ continue fail_if ok fail
  as_f32-inr key ki bytes c v h = ground arith

  -- A float that was read has its size and type in the cache.
  pub read_f32-Knows :
      (key : ℕ) (c : SmcConnection D) (v : F32)
      → Cache.Laws.IsValid c.cache
      → (read_f32 sys key c).0 ≡ inr v
      → Knows key (record { data_size = 4; data_type = type_flt }) (read_f32 sys key c).1
  unfolding read_f32
  read_f32-Knows key c v valid h =
      let ((ki, bytes), found, whole) = bind_inr (read_key sys key) (as_f32 key) c v h in
      let known = read_key-Knows key c ki bytes valid found in
      let (size, type, same) =
        as_f32-inr key ki bytes (read_key sys key c).1 v (sym (ap (λ r. r.0) whole) ∙ h) in
      rw (ap (λ r. r.1) whole) (rw same (cc))

  write_sized_refused :
      (key value : ℕ) (ki : KeyInfo) (c : SmcConnection D)
      → ki.data_size ≢ 1
      → write_sized sys key (value ∷ []) ki c ≡ (inl (size_mismatch key ki.data_size 1), c)
  unfolding write_sized ◌>>◌ ◌>>=◌ continue fail_if
  write_sized_refused key value ki c wrong = ground arith

  -- A size other than 1 in the slot of a fan's mode key refuses the write that releases the fan.
  pub force_write_auto_mode_blocked :
      (i data_size data_type : ℕ) (c : SmcConnection D)
      → Cache.get c.cache (fourcc (fan_mode i)) ≡ some (data_size, data_type)
      → data_size ≢ 1
      → force_write_auto_mode sys i c ≡ (inl (size_mismatch (fourcc (fan_mode i)) data_size 1), c)
  unfolding force_write_auto_mode write_u8 write_key read_key_info read_key_info_or data_type ◌>>=◌
      ◌>>◌ continue ask fail_if ok
  force_write_auto_mode_blocked i data_size data_type c found wrong =
      rw found (write_sized_refused (fourcc (fan_mode i)) 0 _ c wrong)
