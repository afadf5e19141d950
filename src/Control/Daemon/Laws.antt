-- ===== src/Control/Daemon/Laws.antt =====
-- The histogram counts, for each range of times, the ticks that fall in it.
use fand.Prelude.{
  ℕ, zero, suc, ◌+◌, ◌≤◌, ◌<◌, ◌≡◌, ◌≢◌, refl, ap, sym, ◌∙◌, Bool, true, false, ◌&&◌, ◌||◌, ltb,
  leb, ◌==◌, ==_iff, Bool-cases, inl, inr, List, [], ◌∷◌, length, get_or, arith, if◌then◌else◌,
  get_or-set_self, get_or-set_ne, length-set, replicate,
}
use fand.Control.Daemon.{DaemonState, new, bucket_of, saturating_suc_u64, record_latency}

-- The ranges: bucket `j` holds the times from one limit to the next, the last one all from 500 ms.
unfoldable pub in_range : ℕ → ℕ → Bool
in_range j us =
    leb (get_or (0 ∷ 100 ∷ 1000 ∷ 10000 ∷ 100000 ∷ 500000 ∷ []) j 0) us
    && (j == 5 || ltb us (get_or (100 ∷ 1000 ∷ 10000 ∷ 100000 ∷ 500000 ∷ []) j 0))

unfoldable pub ticks_in : ℕ → List ℕ → ℕ
ticks_in j [] = 0
ticks_in j (us ∷ rest) = (if in_range j us then 1 else 0) + ticks_in j rest

unfoldable pub record_all : {Flag : Type 0} → DaemonState Flag → List ℕ → DaemonState Flag
record_all s [] = s
record_all s (us ∷ rest) = record_all (record_latency s us) rest

bucket_of-in_range : (j us : ℕ) → j < 6 → (bucket_of us == j) ≡ in_range j us
unfolding bucket_of in_range
bucket_of-in_range zero us h = ground arith
bucket_of-in_range (suc zero) us h = ground arith
bucket_of-in_range (suc (suc zero)) us h = ground arith
bucket_of-in_range (suc (suc (suc zero))) us h = ground arith
bucket_of-in_range (suc (suc (suc (suc zero)))) us h = ground arith
bucket_of-in_range (suc (suc (suc (suc (suc zero))))) us h = ground arith
bucket_of-in_range (suc (suc (suc (suc (suc (suc j)))))) us h = absurd (omega arith)

abbrev one_if : Bool → ℕ
one_if b = if b then 1 else 0

latency-length :
    {Flag : Type 0} (s : DaemonState Flag) (us : ℕ)
    → length (record_latency s us).tick_latency_us ≡ length s.tick_latency_us
unfolding record_latency
latency-length s us = length-set s.tick_latency_us _ _

latency_step :
    {Flag : Type 0} (s : DaemonState Flag) (j us : ℕ)
    → j < 6
    → length s.tick_latency_us ≡ 6
    → get_or s.tick_latency_us j 0 < 18446744073709551615
    → get_or (record_latency s us).tick_latency_us j 0
      ≡ one_if (in_range j us) + get_or s.tick_latency_us j 0
unfolding record_latency
latency_step s j us h six room = elim (Bool-cases (bucket_of us == j)) [
  | inl e ↦
      let here : bucket_of us ≡ j = (==_iff (bucket_of us) j).0 e in
      rw (sym (bucket_of-in_range j us h) ∙ e, here)
        (get_or-set_self s.tick_latency_us j _ 0 (omega (arith, six)) ∙ bump _ room)
  | inr e ↦
      rw (sym (bucket_of-in_range j us h) ∙ e) (
        get_or-set_ne s.tick_latency_us (bucket_of us) j _ 0 (other (bucket_of us) j e) ∙ unmoved _)
]
  where
    other : (a b : ℕ) → (a == b) ≡ false → a ≢ b
    other a b e = ground arith

    bump : (n : ℕ) → n < 18446744073709551615 → saturating_suc_u64 n ≡ 1 + n
    bump n room = ground arith

    unmoved : (n : ℕ) → n ≡ 0 + n
    unmoved n = omega arith

record_all_lem :
    {Flag : Type 0} (s : DaemonState Flag) (times : List ℕ) (j : ℕ)
    → j < 6
    → length s.tick_latency_us ≡ 6
    → get_or s.tick_latency_us j 0 + length times ≤ 18446744073709551615
    → get_or (record_all s times).tick_latency_us j 0
      ≡ get_or s.tick_latency_us j 0 + ticks_in j times
unfolding record_all ticks_in
record_all_lem s [] j h six room = omega arith
record_all_lem s (us ∷ rest) j h six room =
    let step = latency_step s j us h six (omega arith) in
    let bound : one_if (in_range j us) ≤ 1 = at_most (in_range j us) in
    omega (
      arith,
      step,
      record_all_lem (record_latency s us) rest j h (latency-length s us ∙ six)
          (omega (arith, step, bound)),
    )
  where
    at_most : (b : Bool) → one_if b ≤ 1
    at_most true = omega arith
    at_most false = omega arith

zeros-get_or : (k j : ℕ) → get_or {A = ℕ} (replicate k 0) j 0 ≡ 0
zeros-get_or zero j = refl
zeros-get_or (suc k) zero = refl
zeros-get_or (suc k) (suc j) = zeros-get_or k j

-- After any run of at most 2 ^ 64 - 1 recorded ticks from a new state, each of the six buckets
-- holds the number of them whose time lies in its range.
pub record_all-histogram :
    {Flag : Type 0} (t d r p w n : Flag) (times : List ℕ) (j : ℕ)
    → j < 6
    → length times ≤ 18446744073709551615
    → get_or (record_all (new t d r p w n) times).tick_latency_us j 0 ≡ ticks_in j times
unfolding new
record_all-histogram t d r p w n times j h room =
    let start = zeros-get_or 6 j in
    record_all_lem (new t d r p w n) times j h refl (rw start (omega arith))
    ∙ ap (λ k. k + ticks_in j times) start
    ∙ omega arith
