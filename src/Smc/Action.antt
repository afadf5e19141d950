-- ===== src/Smc/Action.antt =====
-- A method that changes a state and may fail: the new state comes back with the error too. The
-- error is on the left of the sum.
pub mod Invariant
pub mod Cases
pub mod Yields
pub mod Ends
use fand.Prelude.{true, false, Bool, ◌⊎◌, inl, inr, if◌then◌else◌}
use fand.Smc.Error.{SmcError}

abbrev pub Action : Type 0 → Type 0 → Type 0
Action S A = S → (SmcError ⊎ A) × S

module _ {S : Type 0} where
  -- `?` on an error, else the rest of the method.
  unfoldable pub continue :
      {A B : Type 0} → (A → Action S B) → SmcError ⊎ A → S → (SmcError ⊎ B) × S
  continue k (inl e) s = (inl e, s)
  continue k (inr a) s = k a s

  infixl 5 ◌>>=◌ ◌>>◌
  unfoldable pub ◌>>=◌ : {A B : Type 0} → Action S A → (A → Action S B) → Action S B
  (m >>= k) s = let r = m s in continue k r.0 r.1

  unfoldable pub ◌>>◌ : {A B : Type 0} → Action S A → Action S B → Action S B
  m >> k = m >>= λ _. k

  unfoldable pub ok : {A : Type 0} → A → Action S A
  ok a s = (inr a, s)

  unfoldable pub fail : {A : Type 0} → SmcError → Action S A
  fail e s = (inl e, s)

  unfoldable pub ask : {A : Type 0} → (S → A) → Action S A
  ask f s = (inr (f s), s)

  unfoldable pub modify : (S → S) → Action S Unit
  modify f s = (inr tt, f s)

  unfoldable pub fail_if : Bool → SmcError → Action S Unit
  fail_if b e s = (if b then inl e else inr tt, s)

  -- `let _ = m;`
  unfoldable pub ignore : {A : Type 0} → Action S A → Action S Unit
  ignore m s = (inr tt, (m s).1)

  -- The two arms of a `match` on a result.
  unfoldable pub branch :
      {A B : Type 0} → (SmcError → Action S B) → (A → Action S B) → SmcError ⊎ A → Action S B
  branch h k (inl e) s = h e s
  branch h k (inr a) s = k a s

  -- `match m { Err(e) => .., Ok(a) => .. }`, where both arms end the method.
  unfoldable pub on_error :
      {A B : Type 0} → Action S A → (SmcError → Action S B) → (A → Action S B) → Action S B
  on_error m h k s = let r = m s in branch h k r.0 r.1
