-- ===== src/Correlation/Laws.antt =====
-- The identifier of a session as a number.
use fand.Prelude.{
  if_cases, ℕ, zero, suc, ◌+◌, ◌*◌, ◌-◌, ◌/◌, ◌%◌, ◌^◌, ◌<◌, ◌≤◌, ◌≡◌, ◌∙◌, sym, ap, refl, ◌&&◌,
  ◌==◌, ==_iff, leb, ltb, Bool, true, false, Bool-cases, List, [], ◌∷◌, ◌++◌, inl, inr, length, All,
  if◌then◌else◌, arith,
}
use fand.Prelude.Text.{Text}
use native.Mathlib.Nat.{pow-suc}
use fand.Correlation.{
  crockford, symbol, time_symbols, Packing, take_group, take_groups, push_byte, push_bytes, flush,
  new,
}

-- The place of a symbol in the alphabet.
abbrev pub place : ℕ → List ℕ → ℕ
place c [] = 0
place c (a ∷ rest) = if a == c then 0 else suc (place c rest)

unfoldable pub digit : ℕ → ℕ
digit c = place c crockford

-- The number that the symbols write in base 32, with what stands before them.
abbrev pub value_from : ℕ → List ℕ → ℕ
value_from n [] = n
value_from n (c ∷ rest) = value_from (n * 32 + digit c) rest

-- The symbols of an identifier read as one number.
abbrev pub value : Text → ℕ
value l = value_from 0 l

-- The number that bytes write, the first one the most significant.
abbrev pub from_bytes : ℕ → List ℕ → ℕ
from_bytes n [] = n
from_bytes n (b ∷ rest) = from_bytes (n * 256 + b) rest

abbrev all_below : ℕ → (ℕ → Bool) → Bool
all_below zero p = true
all_below (suc n) p = p n && all_below n p

all_below_sound : (n g : ℕ) (p : ℕ → Bool) → all_below n p ≡ true → g < n → p g ≡ true
all_below_sound zero g p e h = absurd (omega arith)
all_below_sound (suc n) g p e h = elim (Bool-cases (g == n)) [
  | inl same ↦ rw ((==_iff g n).0 same) (ground (arith, e))
  | inr other ↦
      let less : g < n = ground (arith, other) in all_below_sound n g p (ground (arith, e)) less
]

digit-symbol : (g : ℕ) → g < 32 → digit (symbol g) ≡ g
unfolding digit symbol
digit-symbol g h =
    (==_iff (digit (symbol g)) g).0 (all_below_sound 32 g (λ x. digit (symbol x) == x) refl h)

value_from-append :
    (n : ℕ) (l : List ℕ) (c : ℕ) → value_from n (l ++ (c ∷ [])) ≡ value_from n l * 32 + digit c
value_from-append n [] c = refl
value_from-append n (d ∷ l) c = value_from-append (n * 32 + digit d) l c

length-snoc : (l : List ℕ) (c : ℕ) → length (l ++ (c ∷ [])) ≡ suc (length l)
length-snoc [] c = refl
length-snoc (d ∷ l) c = ap suc (length-snoc l c)

-- What the symbols and the bits that wait stand for, and how many bits there were.
abbrev stands : Packing → ℕ
stands p = value p.out * 2 ^ p.bits_in + p.bit_buf % 2 ^ p.bits_in

abbrev filled : Packing → ℕ
filled p = 5 * length p.out + p.bits_in

group_k :
    (v n k : ℕ)
    → k < 8
    → (v * 32 + (n / 2 ^ k) % 32) * 2 ^ k + n % 2 ^ k ≡ v * 2 ^ (k + 5) + n % 2 ^ (k + 5)
group_k v n zero h = omega arith
group_k v n (suc zero) h = omega arith
group_k v n (suc (suc zero)) h = omega arith
group_k v n (suc (suc (suc zero))) h = omega arith
group_k v n (suc (suc (suc (suc zero)))) h = omega arith
group_k v n (suc (suc (suc (suc (suc zero))))) h = omega arith
group_k v n (suc (suc (suc (suc (suc (suc zero)))))) h = omega arith
group_k v n (suc (suc (suc (suc (suc (suc (suc zero))))))) h = omega arith
group_k v n (suc (suc (suc (suc (suc (suc (suc (suc k)))))))) h = omega arith

group_lem :
    (v n bits : ℕ)
    → 5 ≤ bits
    → bits < 13
    → (v * 32 + (n / 2 ^ (bits - 5)) % 32) * 2 ^ (bits - 5) + n % 2 ^ (bits - 5)
      ≡ v * 2 ^ bits + n % 2 ^ bits
group_lem v n bits h l =
    let whole : (bits - 5) + 5 ≡ bits = omega arith in
    group_k v n (bits - 5) (omega arith) ∙ ap (λ b. v * 2 ^ b + n % 2 ^ b) whole

byte_lem :
    (v n b bits : ℕ)
    → b < 256
    → bits < 5
    → v * 2 ^ (bits + 8) + ((n * 256) % 2 ^ 64 + b) % 2 ^ (bits + 8)
      ≡ (v * 2 ^ bits + n % 2 ^ bits) * 256 + b
byte_lem v n b zero h l = omega arith
byte_lem v n b (suc zero) h l = omega arith
byte_lem v n b (suc (suc zero)) h l = omega arith
byte_lem v n b (suc (suc (suc zero))) h l = omega arith
byte_lem v n b (suc (suc (suc (suc zero)))) h l = omega arith
byte_lem v n b (suc (suc (suc (suc (suc k))))) h l = omega arith

-- No bit is lost by `q` since `p`.
record Keeps (p q : Packing) : Type 0 where
  stands_same : stands q ≡ stands p
  filled_same : filled q ≡ filled p

take_group-Keeps : (p : Packing) → 5 ≤ p.bits_in → p.bits_in < 13 → Keeps p (take_group p)
unfolding take_group
take_group-Keeps p h l =
    let group = (p.bit_buf / 2 ^ (p.bits_in - 5)) % 32 in
    let pushed : value (p.out ++ (symbol group ∷ [])) ≡ value p.out * 32 + group =
      value_from-append 0 p.out (symbol group)
      ∙ ap (λ d. value p.out * 32 + d) (digit-symbol group (omega arith)) in
    record {
      stands_same =
          ap (λ v. v * 2 ^ (p.bits_in - 5) + p.bit_buf % 2 ^ (p.bits_in - 5)) pushed
          ∙ group_lem (value p.out) p.bit_buf p.bits_in h l;
      filled_same = omega (arith, length-snoc p.out (symbol group));
    }

ended : (bits n : ℕ) → 5 * n + bits ≤ 130 → (leb 5 bits && ltb n 26) ≡ false → bits < 5
ended bits n t e = ground arith

take_groups-Keeps :
    (n : ℕ) (p : Packing)
    → p.bits_in ≤ 5 * n
    → p.bits_in < 13
    → filled p ≤ 130
    → Keeps p (take_groups n p) × ((take_groups n p).bits_in < 5)
unfolding take_groups take_group
take_groups-Keeps zero p f l t = (record { stands_same = refl; filled_same = refl }, omega arith)
take_groups-Keeps (suc n) p f l t =
    if_cases (λ q. Keeps p q × (q.bits_in < 5)) (leb 5 p.bits_in && ltb (length p.out) 26)
      (λ more.
        let many : 5 ≤ p.bits_in = ground (arith, more) in
        let one = take_group-Keeps p many l in
        let (rest, few) =
          take_groups-Keeps n (take_group p) (omega arith) (omega arith)
            (omega (arith, one.filled_same)) in
        (
          record {
            stands_same = rest.stands_same ∙ one.stands_same;
            filled_same = rest.filled_same ∙ one.filled_same;
          },
          few,
        ))
      (λ done.
        (record { stands_same = refl; filled_same = refl }, ended p.bits_in (length p.out) t done))

push_byte-Keeps :
    (p : Packing) (byte : ℕ)
    → byte < 256
    → p.bits_in < 5
    → filled p ≤ 122
    → (stands (push_byte byte p) ≡ stands p * 256 + byte)
      × (filled (push_byte byte p) ≡ filled p + 8)
      × ((push_byte byte p).bits_in < 5)
unfolding push_byte
push_byte-Keeps p byte h l t =
    let q = record p { bit_buf = (p.bit_buf * 256) % 2 ^ 64 + byte; bits_in = p.bits_in + 8 } in
    let (kept, few) =
      take_groups-Keeps (p.bits_in + 8) q (omega arith) (omega arith) (omega arith) in
    (
      kept.stands_same ∙ byte_lem (value p.out) p.bit_buf byte p.bits_in h l,
      omega (arith, kept.filled_same),
      few,
    )

push_bytes_lem :
    (p : Packing) (bytes : List ℕ)
    → All (λ b. b < 256) bytes
    → p.bits_in < 5
    → filled p + 8 * length bytes ≤ 130
    → (stands (push_bytes bytes p) ≡ from_bytes (stands p) bytes)
      × (filled (push_bytes bytes p) ≡ filled p + 8 * length bytes)
      × ((push_bytes bytes p).bits_in < 5)
unfolding push_bytes
push_bytes_lem p [] h l t = (refl, omega arith, l)
push_bytes_lem p (b ∷ bytes) h l t =
    let (s, f, few) = push_byte-Keeps p b h.0 l (omega arith) in
    let (s2, f2, few2) = push_bytes_lem (push_byte b p) bytes h.1 few (omega (arith, f)) in
    (s2 ∙ ap (λ n. from_bytes n bytes) s, omega (arith, f, f2), few2)

time_symbols_lem :
    (n t : ℕ) (rest : List ℕ)
    → t < 32 ^ n
    → value_from 0 (time_symbols n t rest) ≡ value_from t rest
unfolding time_symbols
time_symbols_lem zero t rest h = ap (λ x. value_from x rest) (omega arith)
time_symbols_lem (suc n) t rest h =
    let small : t / 32 < 32 ^ n = omega (arith, pow-suc 32 n) in
    let whole : t / 32 * 32 + digit (symbol (t % 32)) ≡ t =
      ap (λ d. t / 32 * 32 + d) (digit-symbol (t % 32) (omega arith)) ∙ omega arith in
    time_symbols_lem n (t / 32) (symbol (t % 32) ∷ rest) small ∙ ap (λ x. value_from x rest) whole

length-time_symbols : (n t : ℕ) (rest : List ℕ) → length (time_symbols n t rest) ≡ n + length rest
unfolding time_symbols
length-time_symbols zero t rest = omega arith
length-time_symbols (suc n) t rest =
    length-time_symbols n (t / 32) (symbol (t % 32) ∷ rest) ∙ omega arith

none_waits : (v b bits : ℕ) → bits ≡ 0 → v ≡ v * 2 ^ bits + b % 2 ^ bits
none_waits v b zero e = omega arith
none_waits v b (suc n) e = absurd (omega arith)

-- An identifier is 26 symbols that are, read in base 32, the number whose digits in base 256 are the
-- milliseconds and then the ten random bytes: no bit of either is lost, and none is left to flush.
pub new_lem :
    (ms : ℕ) (entropy : List ℕ)
    → ms < 2 ^ 50
    → length entropy ≡ 10
    → All (λ b. b < 256) entropy
    → (length (new ms entropy) ≡ 26) × (value (new ms entropy) ≡ from_bytes ms entropy)
unfolding new flush
new_lem ms entropy h ten bytes =
    let out = time_symbols 10 ms [] in
    let start : Packing = record { bit_buf = 0; bits_in = 0; out = out } in
    let whole : value out ≡ ms = time_symbols_lem 10 ms [] h in
    let packed = push_bytes entropy start in
    let (s, f, few) =
      push_bytes_lem start entropy bytes (omega arith)
        (omega (arith, length-time_symbols 10 ms [], ten)) in
    let full : length packed.out ≡ 26 = omega (arith, length-time_symbols 10 ms [], ten) in
    let none_left : packed.bits_in ≡ 0 = omega (arith, length-time_symbols 10 ms [], ten) in
    let none_to_go : 26 - length packed.out ≡ 0 = omega (arith, full) in
    let begun : stands start ≡ ms = omega (arith, whole) in
    let flushed : flush (26 - length packed.out) packed ≡ packed.out =
      ap (λ n. flush n packed) none_to_go in
    let stood : value packed.out ≡ stands packed =
      none_waits (value packed.out) packed.bit_buf packed.bits_in none_left in
    (
      ap length flushed ∙ full,
      ap value flushed ∙ (stood ∙ (s ∙ ap (λ n. from_bytes n entropy) begun)),
    )

from_bytes_ordered :
    (m n : ℕ) (a b : List ℕ)
    → m < n
    → length a ≡ length b
    → All (λ b. b < 256) a
    → from_bytes m a < from_bytes n b
from_bytes_ordered m n [] [] h e l = h
from_bytes_ordered m n [] (y ∷ b) h e l = absurd (omega (arith, e))
from_bytes_ordered m n (x ∷ a) [] h e l = absurd (omega (arith, e))
from_bytes_ordered m n (x ∷ a) (y ∷ b) h e l =
    from_bytes_ordered (m * 256 + x) (n * 256 + y) a b (omega (arith, l.0)) (omega (arith, e)) l.1

-- Identifiers are in the order of their milliseconds, whatever the random bytes are.
pub new_ordered :
    (ms later : ℕ) (entropy entropy2 : List ℕ)
    → ms < later
    → later < 2 ^ 50
    → (length entropy ≡ 10) × All (λ b. b < 256) entropy
    → (length entropy2 ≡ 10) × All (λ b. b < 256) entropy2
    → value (new ms entropy) < value (new later entropy2)
new_ordered ms later entropy entropy2 h l e e2 =
    let first = new_lem ms entropy (omega arith) e.0 e.1 in
    let second = new_lem later entropy2 l e2.0 e2.1 in
    let order = from_bytes_ordered ms later entropy entropy2 h (e.0 ∙ sym e2.0) e.1 in
    omega (arith, first.1, second.1, order)
