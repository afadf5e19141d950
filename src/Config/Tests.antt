-- ===== src/Config/Tests.antt =====
-- The validation at concrete configurations.
use fand.Prelude.{ℕ, false, some, inr, ◌*◌, ◌≡◌, ◌↔◌, refl, none, [], ◌∷◌}
use fand.Prelude.Int.{pos}
use fand.Prelude.Text.{Text, codes, same_text}
use fand.F32.{F32, fin, one, nan, of_ℕ}
use fand.Config.Schema.{
  name, FanBinding, Config, default_config, default_fan, duplicate_fan_index, poll_interval_range,
  missing_required,
}
use fand.Config.Validate.{validate}
use fand.Config.Validate.Laws.{IsValid}
use fand.Config.Validate.Accepts.{validate_iff}
use fand.Config.Load.{Stat, System, load_config}
use fand.Config.Load.Laws.{IsSafe, load_config_sound}

abbrev whole : ℕ → F32
whole n = fin (pos (n * one))

abbrev left_fan : FanBinding
left_fan = default_fan 0 (name (codes "Tp0C") ∷ []) ((whole 40, 2317) ∷ (whole 90, 7826) ∷ [])

abbrev config : Config
config = default_config (left_fan ∷ [])

validate_iff_example : (validate config ≡ []) ↔ IsValid config
validate_iff_example = validate_iff config

config_accepted : validate config ≡ []
unfolding validate default_config default_fan of_ℕ same_text
config_accepted = refl

-- A system with one file, of 600 bytes and mode 0644, in /etc.
abbrev one_file : System
one_file = record {
  open_file = λ _. inr 3;
  fstat = λ _. some (record { st_mode = 33188; st_uid = 0; st_size = 600 });
  get_path = λ _. some (codes "/private/etc/fand.toml");
  read_to_string = λ _. inr (codes "config_version = 1");
  from_str = λ _. inr config;
  allow_tmp = false;
}

loaded : load_config one_file (codes "/etc/fand.toml") ≡ inr config
unfolding load_config default_config
loaded = refl

load_config_sound_example :
    (fd : ℕ) × (st : Stat) × (content : Text) × (one_file.open_file (codes "/etc/fand.toml")
      ≡ inr fd)
    × IsSafe one_file fd st
    × (one_file.read_to_string fd ≡ inr content)
    × (one_file.from_str content ≡ inr config)
    × (config.config_version ≡ 1)
load_config_sound_example = load_config_sound one_file (codes "/etc/fand.toml") config loaded

-- Two violations, both reported.
config_refused :
    validate (record (default_config (left_fan ∷ left_fan ∷ [])) { poll_interval_ms = 50 })
    ≡ missing_required (poll_interval_range 50) none ∷ duplicate_fan_index 0 ∷ []
unfolding validate default_config default_fan of_ℕ same_text
config_refused = refl

-- A margin that is NaN is accepted.
nan_accepted : validate (default_config (record left_fan { hysteresis_down = nan } ∷ [])) ≡ []
unfolding validate default_config default_fan of_ℕ same_text
nan_accepted = refl
