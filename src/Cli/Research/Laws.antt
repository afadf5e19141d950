-- ===== src/Cli/Research/Laws.antt =====
-- What a command of research asks of the kernel, and what becomes of the floats that it sends.
use fand.Prelude.{
  ℕ, ◌*◌, ◌<◌, ◌≤◌, ◌≡◌, ◌≢◌, refl, true, [], ◌∷◌, ◌⊎◌, inl, inr, All, get_or, arith,
}
use fand.Prelude.Int.{pos}
use fand.F32.{F32, fin, one, of_ℕ, lt}
use fand.Smc.Value.{decode_flt}
use fand.Smc.Value.Float.Laws.{decode_flt-to_be_bytes}
use fand.Smc.Action.Invariant.{Keeps, ok_keeps, on_error_keeps, ignore_keeps}
use fand.Smc.Action.{Action}
use fand.Smc.Ffi.{SmcParamStruct, Device, SmcConnection}
use fand.Smc.Ffi.Write.{smc_cmd_write_key}
use fand.Smc.Ffi.Invariant.{IsKept, read_f32_keeps, write_raw_keeps}
use fand.Smc.Ffi.Traced.{calls_kept}
use fand.Smc.Ffi.Laws.{Trace, traced}
use fand.Cli.Research.{
  f0mn, f0tg, f0dc, f0md, tp0a, payload, captured, read_or, write_mode, reset_mode, write_float,
}

-- One of the keys that take a float.
abbrev pub IsFloatKey : ℕ → Type 0
IsFloatKey key = (key ≡ f0tg) ⊎ (key ≡ f0dc) ⊎ (key ≡ f0mn) ⊎ (key ≡ tp0a)

-- No write, a write of 0 or 1 to the mode of fan 0, or a write to a key that takes a float.
abbrev pub IsResearch : SmcParamStruct → Type 0
IsResearch input =
    (input.data8 ≢ smc_cmd_write_key)
    ⊎ ((input.key ≡ f0md) × (get_or input.bytes 0 2 ≤ 1))
    ⊎ IsFloatKey input.key

abbrev pub AreResearch : Trace → Type 0
AreResearch trace = All (λ (call : ℕ × SmcParamStruct). IsResearch call.1) trace

module _ {S : Type 0} {P : S → Type 0} {A : Type 0} where
  pub captured_keeps : {m : Action S A} → Keeps P m → Keeps P (captured m)
  unfolding captured
  captured_keeps f = record { kept = λ s p. f.kept s p }

module _ {D : Type 0} (sys : Device D) where
  abbrev pub ResearchSoFar : SmcConnection (Trace × D) → Type 0
  ResearchSoFar c = AreResearch c.machine.0

  pub allowed_kept : IsKept (traced sys) IsResearch ResearchSoFar
  allowed_kept = calls_kept IsResearch sys (λ input h. inl h)

  pub read_or_keeps :
      (key : ℕ) (default : F32) → Keeps ResearchSoFar (read_or (traced sys) key default)
  unfolding read_or
  read_or_keeps key default =
      on_error_keeps (read_f32_keeps allowed_kept key) (λ e. ok_keeps _) (λ v. ok_keeps _)

  pub write_mode_keeps : (mode : ℕ) → mode ≤ 1 → Keeps ResearchSoFar (write_mode (traced sys) mode)
  unfolding write_mode
  write_mode_keeps mode h =
      write_raw_keeps allowed_kept f0md (mode ∷ []) (λ ki. inr (inl (refl, h)))

  pub reset_mode_keeps : Keeps ResearchSoFar (reset_mode (traced sys))
  unfolding reset_mode
  reset_mode_keeps = ignore_keeps (write_mode_keeps 0 (omega arith))

  pub write_float_keeps :
      (key : ℕ) (value : F32)
      → IsFloatKey key
      → Keeps ResearchSoFar (write_float (traced sys) key value)
  unfolding write_float
  write_float_keeps key value h =
      write_raw_keeps allowed_kept key (payload value) (λ ki. inr (inr h))

-- The bytes that are sent for a whole number of revolutions below 65536 are read back as a number
-- below 1, by the decoder that reads every float of the SMC.
pub decode_flt-payload :
    (n : ℕ)
    → n < 65536
    → (w : F32) × (decode_flt (payload (fin (pos (n * one)))) 4 ≡ inr w) × (lt w (of_ℕ 1) ≡ true)
unfolding payload
decode_flt-payload n h = decode_flt-to_be_bytes n h
