-- ===== src/Config/Load.antt =====
-- src/config/load.rs and src/config/reload.rs: loading a configuration, as built for macOS and
-- outside its own tests. A `Result` is a sum, with the error on the left.
-- The calls of the system and the TOML parser are the fields of `System`.
pub mod Laws
use fand.Prelude.{
  ℕ, ◌/◌, ◌%◌, Bool, true, false, not, ◌||◌, ◌&&◌, ltb, ◌==◌, Option, none, some, List, [], ◌∷◌,
  ◌++◌, ◌⊎◌, inl, inr, if◌then◌else◌,
}
use fand.Prelude.Text.{Text, codes}
use fand.Config.Schema.{
  Config, Message, open_failed, fstat_failed, read_failed, bad_version, literal, ValidationError,
  missing_required, toml_syntax, unsafe_permissions, file_too_large,
}
use fand.Config.Validate.{validate}

pub record Stat : Type 0 where
  pub st_mode : ℕ
  pub st_uid : ℕ
  pub st_size : ℕ

pub record TomlError : Type 0 where
  pub span_start : Option ℕ
  pub message : Text

-- A descriptor is a number; a path that is not UTF-8 is the empty text.
pub record System : Type 0 where
  pub open_file : Text → Text ⊎ ℕ
  pub fstat : ℕ → Option Stat
  pub get_path : ℕ → Option Text
  pub read_to_string : ℕ → Text ⊎ Text
  pub from_str : Text → TomlError ⊎ Config
  pub allow_tmp : Bool  -- FAND_ALLOW_TMP_CONFIG is "1"

-- `map_err(f)?`, and the rest on success.
abbrev pub or_fail {ℓ κ ι} :
    {E : Type ℓ} {A : Type κ} {B : Type ι}
    → (E → ValidationError)
    → E ⊎ A
    → (A → ValidationError ⊎ B)
    → ValidationError ⊎ B
or_fail f (inl e) k = inl (f e)
or_fail f (inr a) k = k a

abbrev pub max_config_size : ℕ
max_config_size = 65536

-- `mode & 0o022 != 0`.
abbrev pub writable_by_others : ℕ → Bool
writable_by_others mode = (mode / 2) % 2 == 1 || (mode / 16) % 2 == 1

-- The permission bits: `st_mode & 0o7777`.
abbrev pub mode_of : Stat → ℕ
mode_of st = st.st_mode % 4096

unfoldable pub starts_with : Text → Text → Bool
starts_with s [] = true
starts_with [] (p ∷ ps) = false
starts_with (b ∷ s) (p ∷ ps) = b == p && starts_with s ps

unfoldable pub in_tmp : Text → Bool
unfolding starts_with
in_tmp s =
    starts_with s (codes "/tmp")
    || (starts_with s (codes "/var/tmp")
        || (starts_with s (codes "/private/tmp") || starts_with s (codes "/private/var/tmp")))

-- Step 2: the permissions and the size.
unfoldable pub check_stat : Text → Option Stat → ValidationError ⊎ Stat
check_stat path none = inl (missing_required (fstat_failed path) none)
check_stat path (some st) =
    if writable_by_others (mode_of st)
    then inl (unsafe_permissions path st.st_uid (mode_of st))
    else if ltb max_config_size st.st_size
    then inl (file_too_large st.st_size)
    else inr st

-- Step 3: the place of the file.
unfoldable pub check_place : Bool → Stat → Option Text → ValidationError ⊎ Stat
unfolding in_tmp
check_place allow_tmp st none = inr st
check_place allow_tmp st (some resolved) =
    if not allow_tmp && in_tmp resolved
    then inl (unsafe_permissions resolved st.st_uid (mode_of st))
    else inr st

abbrev pub or_zero : Option ℕ → ℕ
or_zero none = 0
or_zero (some n) = n

abbrev pub toml_failed : TomlError → ValidationError
toml_failed e = toml_syntax (or_zero e.span_start) 0 (literal e.message)

-- Step 6: the version.
unfoldable pub check_version : Config → ValidationError ⊎ Config
check_version c =
    if c.config_version == 1
    then inr c
    else inl (missing_required (bad_version c.config_version) none)

-- `load_config` from each of its steps on.
unfoldable pub after_read : System → Text → ValidationError ⊎ Config
unfolding check_version
after_read sys content = or_fail toml_failed (sys.from_str content) check_version

unfoldable pub after_place : System → Text → ℕ → Stat → ValidationError ⊎ Config
unfolding after_read
after_place sys path fd st =
    or_fail (λ e. missing_required (read_failed path e) none) (sys.read_to_string fd)
      (after_read sys)

unfoldable pub after_stat : System → Text → ℕ → Stat → ValidationError ⊎ Config
unfolding check_place after_place
after_stat sys path fd st =
    or_fail (λ e. e) (check_place sys.allow_tmp st (sys.get_path fd)) (after_place sys path fd)

unfoldable pub after_open : System → Text → ℕ → ValidationError ⊎ Config
unfolding check_stat after_stat
after_open sys path fd = or_fail (λ e. e) (check_stat path (sys.fstat fd)) (after_stat sys path fd)

unfoldable pub load_config : System → Text → ValidationError ⊎ Config
unfolding after_open
load_config sys path =
    or_fail (λ e. missing_required (open_failed path e) none) (sys.open_file path)
      (after_open sys path)

pub data ReloadError : Type 0 where
  load : ValidationError → ReloadError
  validation : List ValidationError → ReloadError

-- `if errors.is_empty()`.
unfoldable pub if_valid : Config → List ValidationError → ReloadError ⊎ Config
if_valid c [] = inr c
if_valid c (e ∷ es) = inl (validation (e ∷ es))

unfoldable pub reload_from : ValidationError ⊎ Config → ReloadError ⊎ Config
unfolding if_valid
reload_from (inl e) = inl (load e)
reload_from (inr c) = if_valid c (validate c)

unfoldable pub reload_config : System → Text → ReloadError ⊎ Config
unfolding load_config reload_from
reload_config sys path = reload_from (load_config sys path)
