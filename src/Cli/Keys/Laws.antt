-- ===== src/Cli/Keys/Laws.antt =====
-- What the modes of `fand keys` ask of the kernel, and which values it can show.
use fand.Prelude.{
  ℕ, zero, suc, ◌+◌, ◌≡◌, ◌≢◌, refl, ap, not, ◌&&◌, ◌==◌, Option, none, some, List, ◌⊎◌, inl, inr,
  length, get_or, if_both, sym, subst, ◌∙◌,
}
use fand.Prelude.Text.{Text, codes, same_text}
use fand.Smc.Keys.{ftst, fourcc}
use fand.Smc.Action.{Action}
use fand.Smc.Action.Invariant.{
  Keeps, ok_keeps, if_keeps, on_error_keeps, ignore_keeps, bind_keeps, then_keeps,
}
use fand.Smc.Ffi.{SmcParamStruct, Device, SmcConnection, close}
use fand.Smc.Ffi.Read.{KeyInfo}
use fand.Smc.Ffi.Write.{smc_cmd_write_key, probe_write_ftst_zero}
use fand.Smc.Ffi.Invariant.{
  IsKept, read_key_info_keeps, read_key_keeps, read_u8_keeps, read_u32_keeps, read_f32_keeps,
  read_key_at_index_keeps, write_u8_keeps,
}
use fand.Smc.Ffi.Traced.{AllCalls, calls_kept}
use fand.Smc.Ffi.Laws.{Trace, traced}
use fand.Smc.Enumerate.Invariant.{enumerate_fans_keeps, read_key_count_keeps}
use fand.Cli.Keys.{
  fourcc_to_string, Shown, Listing, ui8, ui32, flt, shown_raw, show, show_key, list_keys,
  run_default, run_json, run_all_fan_keys, run_read_key, run_debug_open, on_open, run_mode, parsed,
  execute,
}
use fand.Cli.Keys.Args.{
  Mode, default, debug_open, json, all_fan_keys, read, debug_write, ArgError, parse_args,
}
use fand.Cli.Keys.Args.Laws.{render, parse_args_iff}

-- No write, or a write of 0 to the key of the diagnostic mode.
abbrev pub IsUnlockOff : SmcParamStruct → Type 0
IsUnlockOff input =
    (input.data8 ≢ smc_cmd_write_key) ⊎ ((input.key ≡ fourcc ftst) × (get_or input.bytes 0 1 ≡ 0))

abbrev pub AreUnlockOff : Trace → Type 0
AreUnlockOff trace = AllCalls IsUnlockOff trace

module _ {D : Type 0} (sys : Device D) where
  abbrev SoFar : SmcConnection (Trace × D) → Type 0
  SoFar c = AreUnlockOff c.machine.0

  off_kept : IsKept (traced sys) IsUnlockOff SoFar
  off_kept = calls_kept IsUnlockOff sys (λ input h. inl h)

  probe_write_ftst_zero_keeps : Keeps SoFar (probe_write_ftst_zero (traced sys))
  unfolding probe_write_ftst_zero
  probe_write_ftst_zero_keeps = write_u8_keeps off_kept ftst 0 (λ ki. inr (refl, refl))

  run_default_keeps : Keeps SoFar (run_default (traced sys))
  unfolding run_default
  run_default_keeps =
      let probes = ignore_keeps probe_write_ftst_zero_keeps in
      then_keeps probes (
        on_error_keeps (enumerate_fans_keeps off_kept) (λ e. ok_keeps 1)
          (λ fans. then_keeps probes (ok_keeps 0)))

  run_json_keeps : Keeps SoFar (run_json (traced sys))
  unfolding run_json
  run_json_keeps =
      on_error_keeps (enumerate_fans_keeps off_kept) (λ e. ok_keeps 1) (λ fans. ok_keeps 0)

  list_keys_keeps : (i n : ℕ) (l : Listing) → Keeps SoFar (list_keys (traced sys) i n l)
  unfolding list_keys
  list_keys_keeps i zero l = ok_keeps l
  list_keys_keeps i (suc n) l =
      on_error_keeps (read_key_at_index_keeps off_kept i) (λ e. list_keys_keeps (i + 1) n _)
        (λ fourcc. if_keeps _ (list_keys_keeps (i + 1) n l) (
          on_error_keeps (read_key_info_keeps off_kept fourcc) (λ e. list_keys_keeps (i + 1) n _)
            (λ info. list_keys_keeps (i + 1) n _)))

  run_all_fan_keys_keeps : Keeps SoFar (run_all_fan_keys (traced sys))
  unfolding run_all_fan_keys
  run_all_fan_keys_keeps =
      on_error_keeps (read_key_count_keeps off_kept) (λ e. ok_keeps 1)
        (λ key_count. then_keeps (list_keys_keeps 0 key_count _) (ok_keeps 0))

  show_keeps :
      {A : Type 0} (shape : A → Shown) {m : Action (SmcConnection (Trace × D)) A}
      → Keeps SoFar m
      → Keeps SoFar (show (traced sys) shape m)
  unfolding show
  show_keeps shape f = on_error_keeps f (λ e. ok_keeps _) (λ a. ok_keeps _)

  show_key_keeps : (fourcc : ℕ) (info : KeyInfo) → Keeps SoFar (show_key (traced sys) fourcc info)
  unfolding show_key
  show_key_keeps fourcc info =
      let type_str = fourcc_to_string info.data_type in
      if_keeps (same_text type_str (codes "ui8 ") && info.data_size == 1)
        (show_keeps ui8 (read_u8_keeps off_kept fourcc))
        (if_keeps (same_text type_str (codes "ui32") && info.data_size == 4)
          (show_keeps ui32 (read_u32_keeps off_kept fourcc))
          (if_keeps (same_text type_str (codes "flt ") && info.data_size == 4)
            (show_keeps flt (read_f32_keeps off_kept fourcc))
            (show_keeps (shown_raw info) (read_key_keeps off_kept fourcc))))

  run_read_key_keeps : (fourcc : ℕ) → Keeps SoFar (run_read_key (traced sys) fourcc)
  unfolding run_read_key
  run_read_key_keeps fourcc =
      on_error_keeps (read_key_info_keeps off_kept fourcc) (λ e. ok_keeps _)
        (λ info. bind_keeps (show_key_keeps fourcc info) (λ shown. ok_keeps _))

module _ {D : Type 0} (sys : Device D) where
  close-calls : (c : SmcConnection (Trace × D)) → (close (traced sys) c).machine.0 ≡ c.machine.0
  unfolding close
  close-calls c =
      if_both (λ (x : SmcConnection (Trace × D)). x.machine.0 ≡ c.machine.0) (not c.connection_open)
        refl
        (if_both (λ (x : SmcConnection (Trace × D)). x.machine.0 ≡ c.machine.0) (c.conn == 0) refl
          refl)

  -- What was asked for on the connection that is left, where there is one.
  abbrev pub HasOnlyOff : Option (SmcConnection (Trace × D)) → Type 0
  HasOnlyOff none = Unit
  HasOnlyOff (some left) = AreUnlockOff left.machine.0

  on_open_lem :
      (c : SmcConnection (Trace × D)) (m : Action (SmcConnection (Trace × D)) ℕ)
      → AreUnlockOff c.machine.0
      → Keeps (SoFar sys) m
      → HasOnlyOff (on_open (traced sys) (inr c) m).1
  unfolding on_open
  on_open_lem c m h f = subst AreUnlockOff (sym (close-calls (m c).1)) (f.kept c h)

  -- Which mode is not `--write`.
  abbrev IsOther : Mode → Type 0
  IsOther mode = (fourcc value : Text) → mode ≢ debug_write fourcc value

  run_mode_lem :
      (c : SmcConnection (Trace × D)) (mode : Mode)
      → AreUnlockOff c.machine.0
      → IsOther mode
      → HasOnlyOff (run_mode (traced sys) (inr c) mode).1
  unfolding run_mode run_debug_open
  run_mode_lem c default h o = on_open_lem c _ h (run_default_keeps sys)
  run_mode_lem c debug_open h o = subst AreUnlockOff (sym (close-calls c)) h
  run_mode_lem c json h o = on_open_lem c _ h (run_json_keeps sys)
  run_mode_lem c all_fan_keys h o = on_open_lem c _ h (run_all_fan_keys_keeps sys)
  run_mode_lem c (read key) h o =
      if_both (λ (x : ℕ × Option (SmcConnection (Trace × D))). HasOnlyOff x.1)
        (not (length key == 4)) tt
        (on_open_lem c _ h (bind_keeps (run_read_key_keeps sys _) (λ r. ok_keeps _)))
  run_mode_lem c (debug_write key value) h o = absurd (o key value refl)

  parsed_lem :
      (c : SmcConnection (Trace × D)) (r : ArgError ⊎ Mode)
      → AreUnlockOff c.machine.0
      → ((mode : Mode) → r ≡ inr mode → IsOther mode)
      → HasOnlyOff (parsed (traced sys) (inr c) r).1
  unfolding parsed
  parsed_lem c (inl e) h o = tt
  parsed_lem c (inr mode) h o = run_mode_lem c mode h (o mode refl)

  -- Whatever the arguments are but `--write` with a key and a value, and whatever the kernel
  -- answers, the only write that `fand keys` asks the kernel for is of a 0 to the key of the
  -- diagnostic mode.
  pub execute_safe :
      (args : List Text) (c : SmcConnection (Trace × D))
      → ((fourcc value : Text) → args ≢ render (debug_write fourcc value))
      → AreUnlockOff c.machine.0
      → HasOnlyOff (execute (traced sys) (inr c) args).1
  unfolding execute
  execute_safe args c other h = parsed_lem c (parse_args args) h (λ mode e fourcc value same.
      other fourcc value (((parse_args_iff args mode).0 e).0 ∙ ap render same))
