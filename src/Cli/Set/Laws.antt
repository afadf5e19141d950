-- ===== src/Cli/Set/Laws.antt =====
-- What `fand set` commits: a clamped target for a fan that exists, and only if it is told to.
use fand.Prelude.{
  ℕ, zero, suc, ◌≤◌, ◌≡◌, ◌⊎◌, inl, inr, refl, ap, subst, Option, none, some, List, [], ◌∷◌, All,
  get_elem?,
}
use fand.Prelude.Text.{Text}
use fand.F32.{F32, as_u32, round}
use fand.F32.Order.{Le}
use fand.Control.Clamp
use fand.Control.Clamp.{ClampedRpm, effective_safe_min}
use fand.Control.Clamp.Laws.{new_bounds}
use fand.Smc.Error.{Fan}
use fand.Cli.Set.{
  Mode, dry_run, commit, CliSetArgs, ArgError, parse_args, Session, perform, with_fan, with_session,
  acquired, parsed, run_with_code,
}

-- The floor of a fan is at most its maximum.
abbrev pub HasEnvelope : Option F32 → Fan → Type 0
HasEnvelope env f = Le (effective_safe_min env f.min_rpm) f.max_rpm

-- A commit for a fan of the session, within its envelope, that the arguments ask for.
pub record IsAllowed (env : Option F32) (s : Session) (a : CliSetArgs) (index : ℕ)
    (target : ClampedRpm) : Type 0 where
  pub fan : Fan
  pub exists : get_elem? s.fans index ≡ some fan
  pub above : as_u32 (round (effective_safe_min env fan.min_rpm)) ≤ target.value
  pub below : target.value ≤ as_u32 (round fan.max_rpm)
  pub asked : (a.fan_index ≡ index) × (a.mode ≡ commit)

get_some {ℓ} : {A : Type ℓ} → A → Option A → A
get_some a none = a
get_some a (some b) = b

some_inj {ℓ} : {A : Type ℓ} {a b : A} → some a ≡ some b → a ≡ b
unfolding get_some
some_inj {a} h = ap (get_some a) h

-- Every fan that can be looked up has what all have.
envelope-get_elem? :
    (env : Option F32) (fans : List Fan) (i : ℕ) (f : Fan)
    → All (HasEnvelope env) fans
    → get_elem? fans i ≡ some f
    → HasEnvelope env f
envelope-get_elem? env [] i f h e = cc
envelope-get_elem? env (g ∷ fans) zero f h e = subst (HasEnvelope env) (some_inj e) h.0
envelope-get_elem? env (g ∷ fans) (suc i) f h e = envelope-get_elem? env fans i f h.1 e

perform-IsAllowed :
    (env : Option F32) (s : Session) (a : CliSetArgs) (m : Mode) (fan : Fan) (index : ℕ)
    (target : ClampedRpm)
    → get_elem? s.fans a.fan_index ≡ some fan
    → HasEnvelope env fan
    → a.mode ≡ m
    → (perform env s a m fan).0 ≡ some (index, target)
    → IsAllowed env s a index target
unfolding perform
perform-IsAllowed env s a dry_run fan index target found fits asked h = cc
perform-IsAllowed env s a commit fan index target found fits asked h =
    let same : (a.fan_index, Clamp.new env a.raw_rpm fan.min_rpm fan.max_rpm) ≡ (index, target) =
      some_inj h in
    let i : a.fan_index ≡ index = ap (λ (q : ℕ × ClampedRpm). q.0) same in
    let t : Clamp.new env a.raw_rpm fan.min_rpm fan.max_rpm ≡ target =
      ap (λ (q : ℕ × ClampedRpm). q.1) same in
    let (low, high) = new_bounds env a.raw_rpm fan.min_rpm fan.max_rpm fits in
    record {
      fan = fan;
      exists = subst (λ j. get_elem? s.fans j ≡ some fan) i found;
      above =
          subst (λ (c : ClampedRpm). as_u32 (round (effective_safe_min env fan.min_rpm)) ≤ c.value)
            t low;
      below = subst (λ (c : ClampedRpm). c.value ≤ as_u32 (round fan.max_rpm)) t high;
      asked = (i, asked);
    }

with_fan-IsAllowed :
    (env : Option F32) (s : Session) (a : CliSetArgs) (found : Option Fan) (index : ℕ)
    (target : ClampedRpm)
    → All (HasEnvelope env) s.fans
    → get_elem? s.fans a.fan_index ≡ found
    → (with_fan env s a found).0 ≡ some (index, target)
    → IsAllowed env s a index target
unfolding with_fan
with_fan-IsAllowed env s a none index target fits e h = cc
with_fan-IsAllowed env s a (some fan) index target fits e h =
    perform-IsAllowed env s a a.mode fan index target e
      (envelope-get_elem? env s.fans a.fan_index fan fits e) refl h

with_session-IsAllowed :
    (env : Option F32) (s : Session) (fans : List Fan) (a : CliSetArgs) (index : ℕ)
    (target : ClampedRpm)
    → s.fans ≡ fans
    → All (HasEnvelope env) s.fans
    → (with_session env s fans a).0 ≡ some (index, target)
    → IsAllowed env s a index target
unfolding with_session
with_session-IsAllowed env s [] a index target e fits h = cc
with_session-IsAllowed env s (f ∷ fs) a index target e fits h =
    with_fan-IsAllowed env s a (get_elem? (f ∷ fs) a.fan_index) index target fits
      (ap (λ l. get_elem? l a.fan_index) e) h

parsed-IsAllowed :
    (env : Option F32) (s : Session) (read : ArgError ⊎ CliSetArgs) (index : ℕ)
    (target : ClampedRpm)
    → All (HasEnvelope env) s.fans
    → (parsed env (inr s) read).0 ≡ some (index, target)
    → (a : CliSetArgs) × (read ≡ inr a) × IsAllowed env s a index target
unfolding parsed acquired
parsed-IsAllowed env s (inl e) index target fits h = cc
parsed-IsAllowed env s (inr a) index target fits h =
    (a, refl, with_session-IsAllowed env s s.fans a index target refl fits h)

-- Where each fan's floor is at most its maximum: what `fand set` commits is a target between the
-- rounded floor and the rounded maximum of the fan with that index, which exists, and the arguments
-- name that fan and ask for a commit.
pub run_with_code-commits :
    (env : Option F32) (s : Session) (args : List Text) (index : ℕ) (target : ClampedRpm)
    → All (HasEnvelope env) s.fans
    → (run_with_code env (inr s) args).0 ≡ some (index, target)
    → (a : CliSetArgs) × (parse_args args ≡ inr a) × IsAllowed env s a index target
unfolding run_with_code
run_with_code-commits env s args index target fits h =
    parsed-IsAllowed env s (parse_args args) index target fits h
