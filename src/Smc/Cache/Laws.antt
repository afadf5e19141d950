-- ===== src/Smc/Cache/Laws.antt =====
-- The slots of the cache: what `get` finds after `put` and `invalidate`, for any two keys.
use fand.Prelude.{
  ℕ, zero, suc, ◌%◌, ◌≤◌, ◌≡◌, ◌≢◌, refl, ap, sym, Option, none, some, List, [], ◌∷◌, All, get_or,
  set, replicate, length, length-set, get_or-set_self, get_or-set_ne, arith, ◌∙◌,
}
use fand.Smc.Cache.{KeyInfoCache, cache_size, new, get, put, invalidate}

-- A size that fits the 32 bytes of a value.
abbrev pub Fits : Option (ℕ × ℕ) → Type 0
Fits none = Unit
Fits (some (data_size, data_type)) = data_size ≤ 32

-- 256 slots, and no size in them is above 32.
pub record IsValid (c : KeyInfoCache) : Type 0 where
  pub full : length c.slots ≡ cache_size
  pub fits : All Fits c.slots

All-set :
    (xs : List (Option (ℕ × ℕ))) (i : ℕ) (v : Option (ℕ × ℕ))
    → All Fits xs
    → Fits v
    → All Fits (set xs i v)
All-set [] i v h f = tt
All-set (x ∷ xs) zero v h f = (f, h.1)
All-set (x ∷ xs) (suc i) v h f = (h.0, All-set xs i v h.1 f)

All-get_or : (xs : List (Option (ℕ × ℕ))) (i : ℕ) → All Fits xs → Fits (get_or xs i none)
All-get_or [] i h = tt
All-get_or (x ∷ xs) zero h = h.0
All-get_or (x ∷ xs) (suc i) h = All-get_or xs i h.1

pub new-IsValid : IsValid new
unfolding new
new-IsValid = record { full = refl; fits = all_none 256 }
  where
    all_none : (n : ℕ) → All Fits (replicate n none)
    all_none zero = tt
    all_none (suc n) = (tt, all_none n)

pub put-IsValid :
    (c : KeyInfoCache) (fourcc data_size data_type : ℕ)
    → IsValid c
    → data_size ≤ 32
    → IsValid (put c fourcc data_size data_type)
unfolding put
put-IsValid c fourcc data_size data_type h f = record {
  full = length-set c.slots (fourcc % cache_size) (some (data_size, data_type)) ∙ h.full;
  fits = All-set c.slots (fourcc % cache_size) (some (data_size, data_type)) h.fits f;
}

pub invalidate-IsValid : (c : KeyInfoCache) (fourcc : ℕ) → IsValid c → IsValid (invalidate c fourcc)
unfolding invalidate
invalidate-IsValid c fourcc h = record {
  full = length-set c.slots (fourcc % cache_size) none ∙ h.full;
  fits = All-set c.slots (fourcc % cache_size) none h.fits tt;
}

pub get-Fits : (c : KeyInfoCache) (fourcc : ℕ) → IsValid c → Fits (get c fourcc)
unfolding get
get-Fits c fourcc h = All-get_or c.slots (fourcc % cache_size) h.fits

-- What a cache of 256 slots holds for `a` after the size and type of `b` are put in it: those of
-- `b` as soon as the two keys end in the same byte, whatever the rest of them, and for any other
-- key what it held before.
pub get-put :
    (c : KeyInfoCache) (a b data_size data_type : ℕ)
    → IsValid c
    → (a % 256 ≡ b % 256 → get (put c b data_size data_type) a ≡ some (data_size, data_type))
      × (a % 256 ≢ b % 256 → get (put c b data_size data_type) a ≡ get c a)
unfolding get put
get-put c a b data_size data_type h = (
  λ e.
      ap (λ i. get_or (set c.slots (b % 256) (some (data_size, data_type))) i none) e
      ∙ get_or-set_self c.slots (b % 256) (some (data_size, data_type)) none
          (omega (arith, h.full)),
  λ n.
      get_or-set_ne c.slots (b % 256) (a % 256) (some (data_size, data_type)) none (λ e. n (sym e)),
)

pub get-put_self :
    (c : KeyInfoCache) (a data_size data_type : ℕ)
    → IsValid c
    → get (put c a data_size data_type) a ≡ some (data_size, data_type)
get-put_self c a data_size data_type h = (get-put c a a data_size data_type h).0 refl

-- Two keys of one slot look alike.
pub get_same_slot : (c : KeyInfoCache) (a b : ℕ) → a % 256 ≡ b % 256 → get c a ≡ get c b
unfolding get
get_same_slot c a b e = ap (λ i. get_or c.slots i none) e
