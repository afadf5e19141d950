-- ===== src/Smc/Enumerate/Invariant.antt =====
-- src/smc/enumerate.rs: what the enumeration of the fans keeps, from what a read keeps.
use fand.Prelude.{ℕ, zero, suc, ◌+◌}
use fand.Smc.Action.{Action}
use fand.Smc.Action.Invariant.{
  Keeps, ok_keeps, fail_keeps, if_keeps, fail_if_keeps, on_error_keeps, bind_keeps, then_keeps,
}
use fand.Smc.Ffi.{SmcParamStruct, Device, SmcConnection}
use fand.Smc.Ffi.Invariant.{
  IsKept, read_key_info_keeps, read_u8_keeps, read_u32_keeps, read_f32_keeps,
}
use fand.Smc.Enumerate.{
  read_key_count, optional, read_fan_count, probe_uppercase, probe_mode_key, read_fan, read_fans,
  enumerate_fans,
}

module _ {D : Type 0} {sys : Device D} {Allowed : SmcParamStruct → Type 0}
    {P : SmcConnection D → Type 0} (k : IsKept sys Allowed P) where
  pub read_key_count_keeps : Keeps P (read_key_count sys)
  unfolding read_key_count
  read_key_count_keeps =
      bind_keeps (read_u32_keeps k _) (λ n. then_keeps (fail_if_keeps _ _) (ok_keeps _))

  optional_keeps :
      {A B : Type 0} (absent : B) (present : A → B) {m : Action (SmcConnection D) A}
      → Keeps P m
      → Keeps P (optional sys absent present m)
  unfolding optional
  optional_keeps absent present f =
      on_error_keeps f (λ e. if_keeps _ (ok_keeps _) (fail_keeps _)) (λ a. ok_keeps _)

  read_fan_count_keeps : Keeps P (read_fan_count sys)
  unfolding read_fan_count
  read_fan_count_keeps = optional_keeps _ _ (read_u8_keeps k _)

  probe_mode_key_keeps : (i : ℕ) → Keeps P (probe_mode_key sys i)
  unfolding probe_mode_key probe_uppercase
  probe_mode_key_keeps i =
      on_error_keeps (read_key_info_keeps k _)
        (λ e.
          if_keeps _
            (on_error_keeps (read_key_info_keeps k _) (λ e. fail_keeps _) (λ _. ok_keeps _))
            (fail_keeps _))
        (λ _. ok_keeps _)

  read_fan_keeps : (i : ℕ) → Keeps P (read_fan sys i)
  unfolding read_fan
  read_fan_keeps i = bind_keeps (read_f32_keeps k _) (λ low.
      bind_keeps (read_f32_keeps k _) (λ high.
        bind_keeps (optional_keeps _ _ (read_f32_keeps k _)) (λ safe.
          bind_keeps (read_f32_keeps k _)
            (λ actual. bind_keeps (probe_mode_key_keeps i) (λ mode_key. ok_keeps _)))))

  read_fans_keeps : (i n : ℕ) → Keeps P (read_fans sys i n)
  unfolding read_fans
  read_fans_keeps i zero = ok_keeps _
  read_fans_keeps i (suc n) =
      bind_keeps (read_fan_keeps i)
        (λ fan. bind_keeps (read_fans_keeps (i + 1) n) (λ fans. ok_keeps _))

  pub enumerate_fans_keeps : Keeps P (enumerate_fans sys)
  unfolding enumerate_fans
  enumerate_fans_keeps =
      bind_keeps read_key_count_keeps
        (λ key_count. bind_keeps read_fan_count_keeps (λ fan_count. read_fans_keeps 0 fan_count))
