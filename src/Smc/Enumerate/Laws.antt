-- ===== src/Smc/Enumerate/Laws.antt =====
-- What an enumeration that ended well has found.
use fand.Prelude.{◌≢◌, ℕ, zero, suc, ◌+◌, ◌≡◌, refl, List, [], ◌∷◌, inr, get_elem?, arith}
use fand.Smc.Error.{Fan}
use fand.Smc.Action.Yields.{Yields, ok-Yields, bind-Yields, bind-Yields_of}
use fand.Smc.Ffi.{Device, SmcConnection}
use fand.Smc.Session.{find_fan}
use fand.Smc.Enumerate.{read_fan, read_fans, enumerate_fans}

-- The fans are numbered from `i` on.
abbrev pub AreNumbered : ℕ → List Fan → Type 0
AreNumbered i [] = Unit
AreNumbered i (f ∷ fs) = (f.index ≡ i) × AreNumbered (i + 1) fs

find_fan-AreNumbered :
    (i j k : ℕ) (fans : List Fan)
    → k ≡ i + j
    → AreNumbered i fans
    → find_fan k fans ≡ get_elem? fans j
unfolding find_fan
find_fan-AreNumbered i j k [] e h = refl
find_fan-AreNumbered i zero k (f ∷ fs) e h =
    let here : f.index ≡ k = omega (arith, h.0) in ground (arith, here)
find_fan-AreNumbered i (suc j) k (f ∷ fs) e h =
    let rest = find_fan-AreNumbered (i + 1) j k fs (omega arith) h.1 in
    let other : f.index ≢ k = λ same. absurd (omega (arith, h.0)) in ground (arith, other)

module _ {D : Type 0} (sys : Device D) where
  read_fan-index : (i : ℕ) → Yields (λ (f : Fan). f.index ≡ i) (read_fan sys i)
  unfolding read_fan
  read_fan-index i = bind-Yields _ (λ low. bind-Yields _ (λ high.
      bind-Yields _
        (λ safe. bind-Yields _ (λ actual. bind-Yields _ (λ mode_key. ok-Yields _ refl)))))

  read_fans-AreNumbered : (i n : ℕ) → Yields (AreNumbered i) (read_fans sys i n)
  unfolding read_fans
  read_fans-AreNumbered i zero = ok-Yields _ tt
  read_fans-AreNumbered i (suc n) =
      bind-Yields_of (read_fan-index i)
        (λ f e. bind-Yields_of (read_fans-AreNumbered (i + 1) n) (λ fs h. ok-Yields _ (e, h)))

  -- The fans that an enumeration found are numbered from 0 on in their order, so that the fan at a
  -- position, which a commit takes, is the fan with that index, which the run loop takes; for a
  -- position past the end there is neither.
  pub enumerate_fans-find_fan :
      (c : SmcConnection D) (fans : List Fan) (i : ℕ)
      → (enumerate_fans sys c).0 ≡ inr fans
      → (AreNumbered 0 fans) × (find_fan i fans ≡ get_elem? fans i)
  unfolding enumerate_fans
  enumerate_fans-find_fan c fans i h =
      let numbered = numbered_fans.yields c fans h in
      (numbered, find_fan-AreNumbered 0 i i fans (omega arith) numbered)
    where
      numbered_fans : Yields (AreNumbered 0) (enumerate_fans sys)
      numbered_fans = bind-Yields _ (λ keys. bind-Yields _ (λ n. read_fans-AreNumbered 0 n))
