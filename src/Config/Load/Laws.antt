-- ===== src/Config/Load/Laws.antt =====
-- What a configuration that was loaded, or loaded again, is known to satisfy.
use fand.Prelude.{
  ℕ, ◌≤◌, ◌≡◌, ◌↔◌, ◌⊎◌, inl, inr, refl, sym, ap, subst, ◌∙◌, Bool, true, false, Option, none, some,
  List, [], ◌∷◌, arith, if◌then◌else◌,
}
use fand.Prelude.Text.{Text}
use fand.Config.Schema.{Config, ValidationError}
use fand.Config.Validate.{validate}
use fand.Config.Validate.Laws.{IsValid}
use fand.Config.Validate.Accepts.{validate_iff}
use fand.Config.Load.{
  Stat, System, or_fail, writable_by_others, mode_of, in_tmp, check_stat, check_place,
  check_version, after_open, after_stat, after_place, after_read, toml_failed, load_config,
  if_valid, reload_from, reload_config,
}

get_right {ℓ κ} : {E : Type ℓ} {A : Type κ} → A → E ⊎ A → A
get_right a (inl e) = a
get_right a (inr b) = b

inr_inj {ℓ κ} : {E : Type ℓ} {A : Type κ} {a b : A} → ◌≡◌ {A = E ⊎ A} (inr a) (inr b) → a ≡ b
unfolding get_right
inr_inj {a} h = ap (get_right a) h

or_fail_inv {ℓ κ ι} :
    {E : Type ℓ} {A : Type κ} {B : Type ι} (f : E → ValidationError) (m : E ⊎ A)
    (k : A → ValidationError ⊎ B) (b : B)
    → or_fail f m k ≡ inr b
    → (a : A) × (m ≡ inr a) × (k a ≡ inr b)
or_fail_inv f (inl e) k b h = cc
or_fail_inv f (inr a) k b h = (a, refl, h)

-- The place is allowed, unknown or outside the temporary directories.
abbrev pub PlaceIsSafe : Bool → Option Text → Type 0
PlaceIsSafe allow found =
    (allow ≡ true) ⊎ ((found ≡ none) ⊎ ((p : Text) × (found ≡ some p) × (in_tmp p ≡ false)))

-- The file of a descriptor passes the checks of its permissions, its size and its place.
pub record IsSafe (sys : System) (fd : ℕ) (st : Stat) : Type 0 where
  pub stat : sys.fstat fd ≡ some st
  pub private : writable_by_others (mode_of st) ≡ false
  pub small : st.st_size ≤ 65536
  pub place : PlaceIsSafe sys.allow_tmp (sys.get_path fd)

check_stat_inv :
    (path : Text) (found : Option Stat) (st : Stat)
    → check_stat path found ≡ inr st
    → (found ≡ some st) × (writable_by_others (mode_of st) ≡ false) × (st.st_size ≤ 65536)
unfolding check_stat
check_stat_inv path none st h = cc
check_stat_inv path (some s) st h = ground arith

taken {ℓ} :
    {A : Type ℓ} (bad : Bool) (e : ValidationError) (a b : A)
    → ◌≡◌ {A = ValidationError ⊎ A} (if bad then inl e else inr a) (inr b)
    → (bad ≡ false) × (a ≡ b)
taken true e a b h = cc
taken false e a b h = (refl, inr_inj h)

check_place_inv :
    (allow : Bool) (st st' : Stat) (found : Option Text)
    → check_place allow st found ≡ inr st'
    → PlaceIsSafe allow found
unfolding check_place
check_place_inv allow st st' none h = inr (inl refl)
check_place_inv true st st' (some q) h = inl refl
check_place_inv false st st' (some q) h = inr (inr (q, refl, (taken (in_tmp q) _ st st' h).0))

check_version_inv : (c c' : Config) → check_version c ≡ inr c' → (c ≡ c') × (c'.config_version ≡ 1)
unfolding check_version
check_version_inv c c' h = ground arith

opened :
    (sys : System) (path : Text) (c : Config) (fd : ℕ)
    → after_open sys path fd ≡ inr c
    → (st : Stat) × ((sys.fstat fd ≡ some st)
        × (writable_by_others (mode_of st) ≡ false)
        × (st.st_size ≤ 65536))
      × (PlaceIsSafe sys.allow_tmp (sys.get_path fd) × (after_place sys path fd st ≡ inr c))
unfolding after_open after_stat
opened sys path c fd h =
    let (st, s, h1) =
      or_fail_inv (λ (e : ValidationError). e) (check_stat path (sys.fstat fd))
        (after_stat sys path fd) c h in
    let (st', q, h2) =
      or_fail_inv (λ (e : ValidationError). e) (check_place sys.allow_tmp st (sys.get_path fd))
        (after_place sys path fd) c h1 in
    (
      st,
      check_stat_inv path (sys.fstat fd) st s,
      (check_place_inv sys.allow_tmp st st' (sys.get_path fd) q, h2),
    )

placed :
    (sys : System) (path : Text) (c : Config) (fd : ℕ) (st : Stat)
    → after_place sys path fd st ≡ inr c
    → (content : Text) × (sys.read_to_string fd ≡ inr content)
      × (sys.from_str content ≡ inr c)
      × (c.config_version ≡ 1)
unfolding after_place after_read
placed sys path c fd st h =
    let (content, r, h1) = or_fail_inv _ (sys.read_to_string fd) (after_read sys) c h in
    let (c', t, v) = or_fail_inv toml_failed (sys.from_str content) check_version c h1 in
    let (e, one) = check_version_inv c' c v in (content, r, t ∙ ap inr e, one)

-- A configuration that is loaded was read by the TOML parser from a file that others cannot write,
-- of at most 64 KiB, whose resolved path, where there is one, is not in a temporary directory
-- unless that is allowed; and it has version 1.
pub load_config_sound :
    (sys : System) (path : Text) (c : Config)
    → load_config sys path ≡ inr c
    → (fd : ℕ) × (st : Stat) × (content : Text) × (sys.open_file path ≡ inr fd)
      × IsSafe sys fd st
      × (sys.read_to_string fd ≡ inr content)
      × (sys.from_str content ≡ inr c)
      × (c.config_version ≡ 1)
unfolding load_config
load_config_sound sys path c h =
    let (fd, o, h1) = or_fail_inv _ (sys.open_file path) (after_open sys path) c h in
    let (st, s, h2) = opened sys path c fd h1 in
    let (content, r, t, v) = placed sys path c fd st h2.1 in
    (fd, st, content, o, record { stat = s.0; private = s.1; small = s.2; place = h2.0 }, r, t, v)

if_valid_iff :
    (c c' : Config) (es : List ValidationError) → (if_valid c es ≡ inr c') ↔ ((c ≡ c') × (es ≡ []))
unfolding if_valid
if_valid_iff c c' [] = (λ h. (inr_inj h, refl), λ h. ap inr h.0)
if_valid_iff c c' (e ∷ es) = (λ h. cc, λ h. cc)

reload_from_iff :
    (loaded : ValidationError ⊎ Config) (c : Config)
    → (reload_from loaded ≡ inr c) ↔ ((loaded ≡ inr c) × IsValid c)
unfolding reload_from
reload_from_iff (inl e) c = (λ h. cc, λ h. cc)
reload_from_iff (inr c') c = (
  λ h.
      let (e, none_found) = (if_valid_iff c' c (validate c')).0 h in
      (ap inr e, subst IsValid e ((validate_iff c').0 none_found)),
  λ h.
      let e : c' ≡ c = inr_inj h.0 in
      (if_valid_iff c' c (validate c')).1
        (e, subst (λ d. validate d ≡ []) (sym e) ((validate_iff c).1 h.1)),
)

-- A reload succeeds with a configuration exactly if the load does with the same one and it is
-- valid.
pub reload_config_iff :
    (sys : System) (path : Text) (c : Config)
    → (reload_config sys path ≡ inr c) ↔ ((load_config sys path ≡ inr c) × IsValid c)
unfolding reload_config
reload_config_iff sys path c = reload_from_iff (load_config sys path) c
