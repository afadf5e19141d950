-- ===== src/Correlation/Tests.antt =====
-- Identifiers at a concrete time.
use fand.Prelude.{ℕ, ◌≡◌, ◌<◌, List, All, [], ◌∷◌, length, refl, arith}
use fand.Correlation.{new}
use fand.Correlation.Laws.{value, from_bytes, new_lem}

abbrev some_bytes : List ℕ
some_bytes = 1 ∷ 2 ∷ 250 ∷ 4 ∷ 5 ∷ 6 ∷ 7 ∷ 8 ∷ 9 ∷ 255 ∷ []

some_bytes-AreBytes : All (λ b. b < 256) some_bytes
some_bytes-AreBytes = (
  omega arith,
  (
    omega arith,
    (
      omega arith,
      (
        omega arith,
        (
          omega arith,
          (omega arith, (omega arith, (omega arith, (omega arith, (omega arith, tt))))),
        ),
      ),
    ),
  ),
)

new_lem_example :
    (length (new 1700000000000 some_bytes) ≡ 26)
    × (value (new 1700000000000 some_bytes) ≡ from_bytes 1700000000000 some_bytes)
new_lem_example = new_lem 1700000000000 some_bytes (omega arith) refl some_bytes-AreBytes
