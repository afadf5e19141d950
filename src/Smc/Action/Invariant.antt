-- ===== src/Smc/Action/Invariant.antt =====
-- What an action keeps, from what its parts keep.
use fand.Prelude.{Bool, true, false, ◌⊎◌, inl, inr, if◌then◌else◌}
use fand.Smc.Error.{SmcError}
use fand.Smc.Action.{
  Action, continue, ◌>>=◌, ◌>>◌, ok, fail, ask, modify, fail_if, ignore, branch, on_error,
}

-- An action that keeps a predicate of the state, however it ends.
pub record Keeps {S A : Type 0} (P : S → Type 0) (m : Action S A) : Type 0 where
  pub kept : (s : S) → P s → P (m s).1

module _ {S : Type 0} {P : S → Type 0} {A : Type 0} where
  pub ok_keeps : (a : A) → Keeps P (ok a)
  unfolding ok
  ok_keeps a = record { kept = λ s p. p }

  pub fail_keeps : (e : SmcError) → Keeps P (fail {A = A} e)
  unfolding fail
  fail_keeps e = record { kept = λ s p. p }

  pub ask_keeps : (f : S → A) → Keeps P (ask f)
  unfolding ask
  ask_keeps f = record { kept = λ s p. p }

  pub ignore_keeps : {m : Action S A} → Keeps P m → Keeps P (ignore m)
  unfolding ignore
  ignore_keeps f = record { kept = λ s p. f.kept s p }

  pub if_keeps :
      (b : Bool) {m n : Action S A} → Keeps P m → Keeps P n → Keeps P (if b then m else n)
  if_keeps true f g = f
  if_keeps false f g = g

module _ {S : Type 0} {P : S → Type 0} where
  pub fail_if_keeps : (b : Bool) (e : SmcError) → Keeps P (fail_if b e)
  unfolding fail_if
  fail_if_keeps b e = record { kept = λ s p. p }

  pub modify_keeps : (f : S → S) → ((s : S) → P s → P (f s)) → Keeps P (modify f)
  unfolding modify
  modify_keeps f g = record { kept = λ s p. g s p }

module _ {S : Type 0} {P : S → Type 0} {A B : Type 0} where
  branch_keeps :
      (h : SmcError → Action S B) (k : A → Action S B) (r : SmcError ⊎ A)
      → ((e : SmcError) → Keeps P (h e))
      → ((a : A) → Keeps P (k a))
      → Keeps P (branch h k r)
  unfolding branch
  branch_keeps h k (inl e) f g = f e
  branch_keeps h k (inr a) f g = g a

  pub on_error_keeps :
      {m : Action S A} {h : SmcError → Action S B} {k : A → Action S B}
      → Keeps P m
      → ((e : SmcError) → Keeps P (h e))
      → ((a : A) → Keeps P (k a))
      → Keeps P (on_error m h k)
  unfolding on_error
  on_error_keeps {m} {h} {k} f g l = record {
    kept = λ s p. (branch_keeps h k (m s).0 g l).kept (m s).1 (f.kept s p);
  }

  continue_keeps :
      (k : A → Action S B) (r : SmcError ⊎ A) (s : S)
      → ((a : A) → Keeps P (k a))
      → P s
      → P (continue k r s).1
  unfolding continue
  continue_keeps k (inl e) s g p = p
  continue_keeps k (inr a) s g p = (g a).kept s p

  pub bind_keeps :
      {m : Action S A} {k : A → Action S B}
      → Keeps P m
      → ((a : A) → Keeps P (k a))
      → Keeps P (m >>= k)
  unfolding ◌>>=◌
  bind_keeps {m} {k} f g = record { kept = λ s p. continue_keeps k (m s).0 (m s).1 g (f.kept s p) }

  pub then_keeps : {m : Action S A} {k : Action S B} → Keeps P m → Keeps P k → Keeps P (m >> k)
  unfolding ◌>>◌
  then_keeps f g = bind_keeps f (λ _. g)
