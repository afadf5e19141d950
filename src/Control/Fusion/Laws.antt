-- ===== src/Control/Fusion/Laws.antt =====
-- Fusion: what the result is made of, and that no reading makes it unusable.
use fand.Prelude.{
  ◌≡◌, ◌≢◌, ap, sym, ◌∙◌, ◌⊎◌, inl, inr, refl, Bool, true, false, List, [], ◌∷◌, length, replicate,
  All, arith,
}
use mathlib.Core.Path.{subst}
use mathlib.Core.List.{foldl, Memᴰ}
use fand.F32
use fand.F32.{F32, fin, neg_inf, le, lt, is_nan, is_infinite, is_finite}
use fand.F32.Order.{Le, le_refl}
use fand.F32.Sign.{max-cases}
use fand.Control.Fusion.{FusionMode, max, valid, combine, fuse, fuse_valid, guard}

valid-none :
    (values : List F32) (dropouts : List Bool)
    → All (λ d. d ≡ true) dropouts
    → valid values dropouts ≡ []
unfolding valid
valid-none [] dropouts h = refl
valid-none (v ∷ vs) [] h = refl
valid-none (v ∷ vs) (d ∷ ds) h = rw h.0 (valid-none vs ds h.1)

-- With every sensor dropped out the last good temperature is kept.
pub fuse-none :
    (values : List F32) (dropouts : List Bool) (mode : FusionMode) (last : F32)
    → All (λ d. d ≡ true) dropouts
    → fuse values dropouts mode last ≡ last
unfolding fuse
fuse-none values dropouts mode last h = rw (valid-none values dropouts h)

guard-is_finite : (result last : F32) → is_finite last ≡ true → is_finite (guard result last) ≡ true
unfolding guard
guard-is_finite result last h = ground arith

fuse_valid-is_finite :
    (vs : List F32) (mode : FusionMode) (last : F32)
    → is_finite last ≡ true
    → is_finite (fuse_valid vs mode last) ≡ true
unfolding fuse_valid
fuse_valid-is_finite [] mode last h = h
fuse_valid-is_finite (v ∷ vs) mode last h = guard-is_finite (combine mode (v ∷ vs)) last h

-- The result is finite whenever the last good temperature is, whatever the readings are, NaN and
-- infinities included.
pub fuse-is_finite :
    (values : List F32) (dropouts : List Bool) (mode : FusionMode) (last : F32)
    → is_finite last ≡ true
    → is_finite (fuse values dropouts mode last) ≡ true
unfolding fuse
fuse-is_finite values dropouts mode last h =
    fuse_valid-is_finite (valid values dropouts) mode last h

valid-none_dropped : (vs : List F32) → valid vs (replicate (length vs) false) ≡ vs
unfolding valid
valid-none_dropped [] = refl
valid-none_dropped (v ∷ vs) = ap (λ r. v ∷ r) (valid-none_dropped vs)

-- A reading that is flagged as a dropout has no influence: the result is that of the other
-- readings alone.
pub fuse-valid :
    (values : List F32) (dropouts : List Bool) (mode : FusionMode) (last : F32)
    → let kept = valid values dropouts in
      fuse kept (replicate (length kept) false) mode last ≡ fuse values dropouts mode last
unfolding fuse
fuse-valid values dropouts mode last = rw (valid-none_dropped (valid values dropouts))

fold_step :
    (acc v m : F32)
    → is_nan acc ≡ false
    → is_finite v ≡ true
    → Le (F32.max acc v) m
    → Le acc m × Le v m
unfolding F32.max
fold_step acc v m h f l = ground arith

max-not_nan : (a b : F32) → is_nan a ≡ false → is_finite b ≡ true → is_nan (F32.max a b) ≡ false
unfolding F32.max
max-not_nan a b h f = ground arith

fold_max :
    (acc : F32) (vs : List F32)
    → is_nan acc ≡ false
    → All (λ v. is_finite v ≡ true) vs
    → let m = foldl F32.max acc vs in ((m ≡ acc) ⊎ Memᴰ m vs) × Le acc m × All (λ v. Le v m) vs
fold_max acc [] h a = (inl refl, le_refl acc h, tt)
fold_max acc (v ∷ vs) h a =
    let ok : is_nan (F32.max acc v) ≡ false = max-not_nan acc v h a.0 in
    let (which, above, rest) = fold_max (F32.max acc v) vs ok a.1 in
    let (left, right) = fold_step acc v (foldl F32.max (F32.max acc v) vs) h a.0 above in
    (pick which (max-cases acc v), left, (right, rest))
  where
    pick : {m k : F32} → (m ≡ k) ⊎ Memᴰ m vs → (k ≡ acc) ⊎ (k ≡ v) → (m ≡ acc) ⊎ Memᴰ m (v ∷ vs)
    pick (inl e) (inl d) = inl (e ∙ d)
    pick (inl e) (inr d) = inr (Memᴰ.head (e ∙ d))
    pick (inr t) d = inr (Memᴰ.tail t)

finite_of_mem :
    (m : F32) (vs : List F32) → Memᴰ m vs → All (λ v. is_finite v ≡ true) vs → is_finite m ≡ true
finite_of_mem m [] t a = elim t [ ]
finite_of_mem m (v ∷ vs) (Memᴰ.head e) a = rw e a.0
finite_of_mem m (v ∷ vs) (Memᴰ.tail t) a = finite_of_mem m vs t a.1

above_finite : (v : F32) → is_finite v ≡ true → ¬ Le v neg_inf
above_finite v f h = ground arith

guard_finite : (m last : F32) → is_finite m ≡ true → guard m last ≡ m
unfolding guard
guard_finite m last f = ground arith

fuse_valid-max :
    (vs : List F32) (last : F32)
    → All (λ v. is_finite v ≡ true) vs
    → vs ≢ []
    → let m = fuse_valid vs max last in Memᴰ m vs × All (λ v. Le v m) vs
unfolding fuse_valid combine
fuse_valid-max [] last a h = absurd (h refl)
fuse_valid-max (v ∷ vs) last a h = found (fold_max neg_inf (v ∷ vs) refl a)
  where
    m : F32
    m = foldl F32.max neg_inf (v ∷ vs)

    found :
        ((m ≡ neg_inf) ⊎ Memᴰ m (v ∷ vs)) × Le neg_inf m × All (λ x. Le x m) (v ∷ vs)
        → let r = guard m last in Memᴰ r (v ∷ vs) × All (λ x. Le x r) (v ∷ vs)
    found (inl e, _, above) = absurd (above_finite v a.0 (rw e at above.0))
    found (inr t, _, above) =
        subst (λ (r : F32). Memᴰ r (v ∷ vs) × All (λ x. Le x r) (v ∷ vs))
          (sym (guard_finite m last (finite_of_mem m (v ∷ vs) t a))) (t, above)

-- In mode `max`, where the readings that are not dropped out are all finite and there is one, the
-- result is one of them, and none of them is above it.
pub fuse-max :
    (values : List F32) (dropouts : List Bool) (last : F32)
    → All (λ v. is_finite v ≡ true) (valid values dropouts)
    → valid values dropouts ≢ []
    → let m = fuse values dropouts max last in
      Memᴰ m (valid values dropouts) × All (λ v. Le v m) (valid values dropouts)
unfolding fuse
fuse-max values dropouts last a h = fuse_valid-max (valid values dropouts) last a h
