-- ===== src/Cli/Research/Ends.antt =====
-- How a command of research ends: with the mode of fan 0 reset on a connection that is open.
use fand.Prelude.{ℕ, ◌≡◌, refl, ap, ap₂, ◌∙◌, subst, sym, true, not, ◌==◌, ◌⊎◌, inl, inr, if_both}
use fand.F32.{F32}
use fand.Smc.Error.{SmcError}
use fand.Smc.Action.{Action, ok, on_error}
use fand.Smc.Action.Invariant.{Keeps}
use fand.Smc.Action.Cases.{on_error_cases}
use fand.Smc.Action.Ends.{Ends, IsTotal, ok-IsTotal, ignore-IsTotal, on_error-Ends}
use fand.Smc.Ffi.{SmcParamStruct, Device, SmcConnection, call_struct, wall_clock_ns, close}
use fand.Smc.Ffi.Read.{read_f32, invalidate}
use fand.Smc.Ffi.Invariant.{IsKept, read_f32_keeps, write_raw_keeps}
use fand.Cli.Research.{
  f0mn, f0md, captured, read_or, write_mode, write_float, reset_mode, Ending, exits, panics,
}

-- An open connection with this port.
abbrev pub IsOn : {D : Type 0} → ℕ → SmcConnection D → Type 0
IsOn port c = (c.connection_open ≡ true) × (c.conn ≡ port)

-- The connection as a reset of the mode left it, which was asked of the port while the connection
-- was open; perhaps closed after.
abbrev pub IsReset : {D : Type 0} → Device D → ℕ → SmcConnection D → Type 0
IsReset {D} sys port c =
    (before : SmcConnection D) × IsOn port before
    × ((c ≡ (reset_mode sys before).1) ⊎ (c ≡ close sys (reset_mode sys before).1))

-- An end by a panic, or after a reset of the mode.
abbrev pub IsClean : {D : Type 0} → Device D → ℕ → Ending → SmcConnection D → Type 0
IsClean sys port ending c = (ending ≡ panics) ⊎ IsReset sys port c

pub captured-IsTotal :
    {S A : Type 0} {P : S → Type 0} {m : Action S A} → Keeps P m → IsTotal P (captured m)
unfolding captured
captured-IsTotal {m} f = record { ends = λ c p. ((m c).0, refl, f.kept c p) }

module _ {D : Type 0} (sys : Device D) (port : ℕ) where
  -- No call closes the connection or changes its port.
  IsOn-kept : IsKept sys (λ _. Unit {0}) (IsOn port)
  unfolding call_struct wall_clock_ns invalidate
  IsOn-kept = record {
    call = λ cmd input allowed. record {
      kept = λ c p.
          if_both (λ (r : (SmcError ⊎ SmcParamStruct) × SmcConnection D). IsOn port r.1)
            (not c.connection_open) p
            (if_both (λ (r : (SmcError ⊎ SmcParamStruct) × SmcConnection D). IsOn port r.1)
              (c.conn == 0) p p);
    };
    clock = record { kept = λ c p. p };
    put = λ c key data_size data_type small p. p;
    forget = λ c key p. p;
    reading = λ input h. tt;
  }

  pub write_mode-IsOn : (mode : ℕ) → Keeps (IsOn port) (write_mode sys mode)
  unfolding write_mode
  write_mode-IsOn mode = write_raw_keeps IsOn-kept f0md _ (λ ki. tt)

  pub write_float-IsOn : (key : ℕ) (value : F32) → Keeps (IsOn port) (write_float sys key value)
  unfolding write_float
  write_float-IsOn key value = write_raw_keeps IsOn-kept key _ (λ ki. tt)

  pub read_or-IsTotal : (key : ℕ) (default : F32) → IsTotal (IsOn port) (read_or sys key default)
  unfolding read_or
  read_or-IsTotal key default =
      on_error-Ends (read_f32_keeps IsOn-kept key) (λ e. ok-IsTotal _) (λ v. ok-IsTotal _)

  pub reset_mode-IsTotal : IsTotal (IsOn port) (reset_mode sys)
  unfolding reset_mode
  reset_mode-IsTotal = ignore-IsTotal (write_mode-IsOn 0)

  -- The mode is reset at the end.
  abbrev pub ResetBy : Unit {0} → SmcConnection D → Type 0
  ResetBy u c = (before : SmcConnection D) × IsOn port before × (c ≡ (reset_mode sys before).1)

  pub reset_mode-ResetBy : Ends (IsOn port) ResetBy (reset_mode sys)
  reset_mode-ResetBy = record {
    ends = λ c p. let (u, e, q) = reset_mode-IsTotal.ends c p in (u, e, (c, p, refl));
  }

  pub panics-IsClean : Ends (IsOn port) (IsClean sys port) (ok panics)
  unfolding ok
  panics-IsClean = record { ends = λ c p. (panics, refl, inl refl) }

  -- The floor of the fan could not be read, and nothing was written.
  abbrev pub HasNoFloor : SmcConnection D → Ending → SmcConnection D → Type 0
  HasNoFloor c ending after =
      (e : SmcError) × (read_f32 sys f0mn c ≡ (inl e, after)) × (ending ≡ exits 1)

  -- From the reading of the floor on.
  pub from_floor-Ends :
      {Q : Ending → SmcConnection D → Type 0} {rest : F32 → Action (SmcConnection D) Ending}
      → ((min_rpm : F32) → Ends (IsOn port) Q (rest min_rpm))
      → (c : SmcConnection D) → IsOn port c
      → let run = on_error (read_f32 sys f0mn) (λ e. ok (exits 1)) rest c in
        (ending : Ending) × (run.0 ≡ inr ending) × (HasNoFloor c ending run.1 ⊎ Q ending run.1)
  unfolding ok
  from_floor-Ends {Q} {rest} f c p =
      elim (on_error_cases {B = Ending} (read_f32 sys f0mn) (λ e. ok (exits 1)) rest c) [
        | inl (e, failed, whole) ↦ (
          exits 1,
          ap (λ r. r.0) whole,
          inl (e, ap₂ (λ a b. (a, b)) failed (sym (ap (λ r. r.1) whole)), refl),
        )
        | inr (min_rpm, done, whole) ↦
            let (ending, e, clean) =
              (f min_rpm).ends (read_f32 sys f0mn c).1 ((read_f32_keeps IsOn-kept f0mn).kept c p) in
            (
              ending,
              ap (λ r. r.0) whole ∙ e,
              inr (subst (Q ending) (sym (ap (λ r. r.1) whole)) clean),
            )
      ]
