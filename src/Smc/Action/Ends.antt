-- ===== src/Smc/Action/Ends.antt =====
-- Actions that give a value, and what holds of it and of the state that they leave.
use fand.Prelude.{◌≡◌, refl, ap, sym, subst, Bool, true, false, ◌⊎◌, inl, inr, if◌then◌else◌}
use fand.Smc.Error.{SmcError}
use fand.Smc.Action.Invariant.{Keeps}
use fand.Smc.Action.{Action, continue, ◌>>=◌, ◌>>◌, ok, ignore, branch, on_error}

abbrev pub EndsAt : {S A : Type 0} → (A → S → Type 0) → (SmcError ⊎ A) × S → Type 0
EndsAt {S} {A} Q r = (a : A) × (r.0 ≡ inr a) × Q a r.1

-- From every state with P.
pub record Ends {S A : Type 0} (P : S → Type 0) (Q : A → S → Type 0) (m : Action S A) : Type 0 where
  pub ends : (s : S) → P s → EndsAt Q (m s)

-- An action that never ends in an error, and keeps P.
abbrev pub IsTotal : {S A : Type 0} → (S → Type 0) → Action S A → Type 0
IsTotal P m = Ends P (λ a s. P s) m

module _ {S A : Type 0} {P : S → Type 0} where
  pub ok-IsTotal : (a : A) → IsTotal P (ok a)
  unfolding ok
  ok-IsTotal a = record { ends = λ s p. (a, refl, p) }

  pub ignore-IsTotal : {m : Action S A} → Keeps P m → IsTotal P (ignore m)
  unfolding ignore
  ignore-IsTotal f = record { ends = λ s p. (tt, refl, f.kept s p) }

  pub if-Ends :
      (b : Bool) {Q : A → S → Type 0} {m n : Action S A}
      → Ends P Q m
      → Ends P Q n
      → Ends P Q (if b then m else n)
  if-Ends true f g = f
  if-Ends false f g = g

module _ {S A B : Type 0} where
  pub bind_at :
      (m : Action S A) (k : A → Action S B) (s : S) (a : A)
      → (m s).0 ≡ inr a
      → (m >>= k) s ≡ k a (m s).1
  unfolding ◌>>=◌ continue
  bind_at m k s a e = ap (λ r. continue k r (m s).1) e

module _ {S A B : Type 0} {P : S → Type 0} where
  -- What holds after the first action may serve for the second.
  pub bind-Ends_of :
      {R : A → S → Type 0} {Q : B → S → Type 0} {m : Action S A} (k : A → Action S B)
      → Ends P R m
      → ((a : A) (s : S) → R a s → EndsAt Q (k a s))
      → Ends P Q (m >>= k)
  bind-Ends_of {R} {Q} {m} k f g = record {
    ends = λ s p.
        let (a, e, r) = f.ends s p in subst (EndsAt Q) (sym (bind_at m k s a e)) (g a (m s).1 r);
  }

  pub bind-Ends :
      {Q : B → S → Type 0} {m : Action S A} {k : A → Action S B}
      → IsTotal P m
      → ((a : A) → Ends P Q (k a))
      → Ends P Q (m >>= k)
  bind-Ends {k} f g = bind-Ends_of k f (λ a s p. (g a).ends s p)

  pub then-Ends :
      {Q : B → S → Type 0} {m : Action S A} {n : Action S B}
      → IsTotal P m
      → Ends P Q n
      → Ends P Q (m >> n)
  unfolding ◌>>◌
  then-Ends f g = bind-Ends f (λ a. g)

  branch_at :
      (h : SmcError → Action S B) (k : A → Action S B) {Q : B → S → Type 0} (r : SmcError ⊎ A)
      (s : S)
      → P s
      → ((e : SmcError) → Ends P Q (h e))
      → ((a : A) → Ends P Q (k a))
      → EndsAt Q (branch h k r s)
  unfolding branch
  branch_at h k (inl e) s p f g = (f e).ends s p
  branch_at h k (inr a) s p f g = (g a).ends s p

  -- The first action may fail.
  pub on_error-Ends :
      {m : Action S A} {h : SmcError → Action S B} {k : A → Action S B} {Q : B → S → Type 0}
      → Keeps P m
      → ((e : SmcError) → Ends P Q (h e))
      → ((a : A) → Ends P Q (k a))
      → Ends P Q (on_error m h k)
  unfolding on_error
  on_error-Ends {m} {h} {k} kept f g = record {
    ends = λ s p. branch_at h k (m s).0 (m s).1 (kept.kept s p) f g;
  }
