-- ===== src/Smc/Action/Cases.antt =====
-- How an action ended, from how its first part ended.
use fand.Prelude.{◌≡◌, refl, ap, ◌⊎◌, inl, inr}
use fand.Smc.Error.{SmcError}
use fand.Smc.Action.{Action, continue, ◌>>=◌, ◌>>◌, branch, on_error}

get_inr : {A : Type 0} → A → SmcError ⊎ A → A
get_inr a (inl e) = a
get_inr a (inr b) = b

pub inr_inj : {A : Type 0} {a b : A} → Path (SmcError ⊎ A) (inr a) (inr b) → a ≡ b
unfolding get_inr
inr_inj {a} h = ap (get_inr a) h

module _ {S A B : Type 0} where
  -- The first part failed and so did the whole, or it did not and the rest ran.
  abbrev pub Ended : Action S A → (A → Action S B) → Action S B → S → Type 0
  Ended m k whole s =
      ((e : SmcError) × ((m s).0 ≡ inl e) × (whole s ≡ (inl e, (m s).1)))
      ⊎ ((a : A) × ((m s).0 ≡ inr a) × (whole s ≡ k a (m s).1))

  continue_cases :
      (k : A → Action S B) (r : SmcError ⊎ A) (s : S)
      → ((e : SmcError) × (r ≡ inl e) × (continue k r s ≡ (inl e, s)))
        ⊎ ((a : A) × (r ≡ inr a) × (continue k r s ≡ k a s))
  unfolding continue
  continue_cases k (inl e) s = inl (e, refl, refl)
  continue_cases k (inr a) s = inr (a, refl, refl)

  pub bind_cases : (m : Action S A) (k : A → Action S B) (s : S) → Ended m k (m >>= k) s
  unfolding ◌>>=◌
  bind_cases m k s = continue_cases k (m s).0 (m s).1

  -- A whole that gave a value had a first part that gave one.
  pub bind_inr :
      (m : Action S A) (k : A → Action S B) (s : S) (b : B)
      → ((m >>= k) s).0 ≡ inr b
      → (a : A) × ((m s).0 ≡ inr a) × ((m >>= k) s ≡ k a (m s).1)
  bind_inr m k s b h = elim (bind_cases m k s) [ inl (e, failed, whole) ↦ cc | inr ended ↦ ended ]

  pub then_inr :
      (m : Action S A) (k : Action S B) (s : S) (b : B)
      → ((m >> k) s).0 ≡ inr b
      → (a : A) × ((m s).0 ≡ inr a) × ((m >> k) s ≡ k (m s).1)
  unfolding ◌>>◌
  then_inr m k s b h = bind_inr m (λ _. k) s b h

  branch_cases :
      (h : SmcError → Action S B) (k : A → Action S B) (r : SmcError ⊎ A) (s : S)
      → ((e : SmcError) × (r ≡ inl e) × (branch h k r s ≡ h e s))
        ⊎ ((a : A) × (r ≡ inr a) × (branch h k r s ≡ k a s))
  unfolding branch
  branch_cases h k (inl e) s = inl (e, refl, refl)
  branch_cases h k (inr a) s = inr (a, refl, refl)

  pub on_error_cases :
      (m : Action S A) (h : SmcError → Action S B) (k : A → Action S B) (s : S)
      → ((e : SmcError) × ((m s).0 ≡ inl e) × (on_error m h k s ≡ h e (m s).1))
        ⊎ ((a : A) × ((m s).0 ≡ inr a) × (on_error m h k s ≡ k a (m s).1))
  unfolding on_error
  on_error_cases m h k s = branch_cases h k (m s).0 (m s).1
