-- ===== src/Smc/Action/Yields.antt =====
-- What holds of every value that an action gives, when it gives one.
use fand.Prelude.{◌≡◌, ap, sym, ◌∙◌, subst, inl, inr}
use fand.Smc.Error.{SmcError}
use fand.Smc.Action.{Action, ◌>>=◌, ok, fail}
use fand.Smc.Action.Cases.{bind_cases, inr_inj}

pub record Yields {S A : Type 0} (Q : A → Type 0) (m : Action S A) : Type 0 where
  pub yields : (s : S) (a : A) → (m s).0 ≡ inr a → Q a

module _ {S A : Type 0} {Q : A → Type 0} where
  pub ok-Yields : (a : A) → Q a → Yields Q (ok {S = S} a)
  unfolding ok
  ok-Yields a q = record { yields = λ s b h. subst Q (inr_inj h) q }

  pub fail-Yields : (e : SmcError) → Yields Q (fail {S = S} e)
  unfolding fail
  fail-Yields e = record { yields = λ s b h. cc }

module _ {S A B : Type 0} {Q : B → Type 0} where
  pub bind-Yields :
      (m : Action S A) {k : A → Action S B} → ((a : A) → Yields Q (k a)) → Yields Q (m >>= k)
  bind-Yields m {k} f = record {
    yields = λ s b h. elim (bind_cases m k s) [
      | inl (e, failed, whole) ↦ cc
      | inr (a, done, whole) ↦ (f a).yields (m s).1 b (sym (ap (λ r. r.0) whole) ∙ h)
    ];
  }

  -- The value is used: what holds of the first action's values may serve for the second.
  pub bind-Yields_of :
      {R : A → Type 0} {m : Action S A} {k : A → Action S B}
      → Yields R m
      → ((a : A) → R a → Yields Q (k a))
      → Yields Q (m >>= k)
  bind-Yields_of {R} {m} {k} g f = record {
    yields = λ s b h. elim (bind_cases m k s) [
      | inl (e, failed, whole) ↦ cc
      | inr (a, done, whole) ↦
          (f a (g.yields s a done)).yields (m s).1 b (sym (ap (λ r. r.0) whole) ∙ h)
    ];
  }
