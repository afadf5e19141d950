-- ===== src/Config/Schema.antt =====
-- src/config/schema.rs: the configuration with its defaults, and the errors of its validation.
-- A text that the code formats is the format string and its arguments: a constructor of `Message`.
use fand.Prelude.{ℕ, Option, none, List}
use fand.Prelude.Text.{Text, codes}
use fand.F32.{F32, of_ℕ, ratio}
use fand.Control.Curve.{Breakpoint}

pub data SensorRef : Type 0 where
  name smc : Text → SensorRef

pub record PowerSourceOverride : Type 0 where
  pub curve : Option (List Breakpoint)
  pub hysteresis_up : Option F32
  pub hysteresis_down : Option F32
  pub smoothing_alpha : Option F32
  pub ramp_down_rpm_per_s : Option ℕ
  pub panic_temp_c : Option F32
  pub panic_hold_s : Option ℕ

pub record FanBinding : Type 0 where
  pub index : ℕ
  pub sensors : List SensorRef
  pub fusion : Text
  pub curve : List Breakpoint
  pub hysteresis_up : F32
  pub hysteresis_down : F32
  pub smoothing_alpha : F32
  pub ramp_down_rpm_per_s : ℕ
  pub panic_temp_c : F32
  pub panic_hold_s : ℕ
  pub min_start_rpm : Option ℕ
  pub low_power_attenuation : Option F32
  pub ac : Option PowerSourceOverride
  pub battery : Option PowerSourceOverride

pub record Config : Type 0 where
  pub config_version : ℕ
  pub poll_interval_ms : ℕ
  pub log_level : Text
  pub control_socket_path : Text
  pub control_socket_mode : ℕ
  pub low_power_attenuation_default : F32
  pub fan : List FanBinding

-- The configuration of a file that gives fans and nothing else.
unfoldable pub default_config : List FanBinding → Config
default_config fans = record {
  config_version = 1;
  poll_interval_ms = 500;
  log_level = codes "info";
  control_socket_path = codes "/var/run/fand.sock";
  control_socket_mode = 384;  -- 0o600
  low_power_attenuation_default = of_ℕ 1;
  fan = fans;
}

-- A fan of which only the index, the sensors and the curve are given.
unfoldable pub default_fan : ℕ → List SensorRef → List Breakpoint → FanBinding
default_fan index sensors curve = record {
  index = index;
  sensors = sensors;
  fusion = codes "max";
  curve = curve;
  hysteresis_up = of_ℕ 1;
  hysteresis_down = of_ℕ 3;
  smoothing_alpha = ratio 25 100;
  ramp_down_rpm_per_s = 600;
  panic_temp_c = of_ℕ 95;
  panic_hold_s = 10;
  min_start_rpm = none;
  low_power_attenuation = none;
  ac = none;
  battery = none;
}

pub data Message : Type 0 where
  poll_interval_range : (got : ℕ) → Message
  log_level_unknown : (other : Text) → Message
  no_fan_section : Message
  rpm_not_finite : (fan bp : ℕ) → Message
  literal : Text → Message
  open_failed read_failed : (path error : Text) → Message
  fstat_failed : (path : Text) → Message
  bad_version : (got : ℕ) → Message

pub data ValidationError : Type 0 where
  toml_syntax : (line col : ℕ) → Message → ValidationError
  missing_required : (field : Message) (fan_index : Option ℕ) → ValidationError
  duplicate_fan_index : (index : ℕ) → ValidationError
  unknown_fan_index : (index : ℕ) (available : List ℕ) → ValidationError
  empty_sensors : (fan_index : ℕ) → ValidationError
  unknown_sensor : (sensor : Text) (available : List Text) → ValidationError
  curve_too_short curve_too_long : (fan_index count : ℕ) → ValidationError
  non_monotone_temp : (fan_index bp : ℕ) (prev_temp temp : F32) → ValidationError
  non_monotone_rpm : (fan_index bp prev_rpm rpm : ℕ) → ValidationError
  rpm_out_of_range : (fan_index bp rpm : ℕ) (max : F32) → ValidationError
  hysteresis_inverted : (fan_index : ℕ) (up down : F32) → ValidationError
  smoothing_alpha_range : (fan_index : ℕ) (alpha : F32) → ValidationError
  panic_temp_too_low : (fan_index : ℕ) (panic last_curve_temp : F32) → ValidationError
  low_power_range : (value : F32) → ValidationError
  invalid_socket_mode : (mode : ℕ) → ValidationError
  file_too_large : (size_bytes : ℕ) → ValidationError
  nesting_too_deep : (depth : ℕ) → ValidationError
  unknown_field : (key context : Text) → ValidationError
  unsafe_permissions : (path : Text) (owner mode : ℕ) → ValidationError
