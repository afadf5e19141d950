-- ===== src/Smc/RoundTrip/Refine.antt =====
-- The ring against the history of all records pushed: it holds the last 256 of them.
use fand.Prelude.{
  ℕ, zero, suc, ◌+◌, ◌-◌, ◌%◌, ◌≤◌, ◌<◌, ◌≡◌, refl, sym, ap, ◌∙◌, min, List, [], ◌∷◌, ◌++◌, length,
  set, get_or, drop, length-append, length-set, get_or-set_self, get_or-set_ne, get_or-append_left,
  get_or-append_last, drop-cons, drop-length_le, arith,
}
use mathlib.Core.List.{append-nil, append_assoc}
use native.Mathlib.Decide.{dec_lt}
use fand.Smc.RoundTrip.{RoundTripRing, new, push, recent, collect}
use fand.Smc.RoundTrip.Record.{RoundTripRecord, blank}

abbrev pub History : Type 0
History = List RoundTripRecord

-- Slot `j % 256` holds record `j`, for the last 256 values of `j`.
pub record Holds {SessionId : Type 0} (r : RoundTripRing SessionId) (h : History) : Type 0 where
  pub size : length r.records ≡ 256
  pub at : r.next ≡ length h % 256
  pub counted : r.count ≡ length h
  pub slots :
      (j : ℕ)
      → j < length h
      → length h ≤ j + 256
      → get_or r.records (j % 256) blank ≡ get_or h j blank

pub new-Holds : {SessionId : Type 0} (id : SessionId) → Holds (new id) []
unfolding new
new-Holds id = record { size = refl; at = refl; counted = refl; slots = λ j h. elim h [ ] }

push_slot :
    {SessionId : Type 0} (r : RoundTripRing SessionId) (h : History) (rec : RoundTripRecord)
    → Holds r h
    → (j : ℕ) → j < length (h ++ (rec ∷ []))
    → length (h ++ (rec ∷ [])) ≤ j + 256
    → get_or (set r.records r.next rec) (j % 256) blank ≡ get_or (h ++ (rec ∷ [])) j blank
push_slot r h rec v j before recent =
    let grown : length (h ++ (rec ∷ [])) ≡ length h + 1 = length-append h (rec ∷ []) in
    elim (dec_lt j (length h)) [
      | yes old ↦
          get_or-set_ne r.records r.next (j % 256) rec blank (omega (arith, v.at))
          ∙ v.slots j old (omega arith)
          ∙ sym (get_or-append_left h (rec ∷ []) j blank old)
      | no new ↦
          let e : j ≡ length h = omega arith in
          rw (e, ← v.at, get_or-append_last h rec blank)
            (get_or-set_self r.records r.next rec blank (omega (arith, v.at, v.size)))
    ]

-- A push adds the record to the end of the history.
pub push-Holds :
    {SessionId : Type 0} (r : RoundTripRing SessionId) (h : History) (rec : RoundTripRecord)
    → length h < 18446744073709551615
    → Holds r h
    → Holds (push r rec) (h ++ (rec ∷ []))
unfolding push
push-Holds r h rec small v = record {
  size = length-set r.records r.next rec ∙ v.size;
  at = omega (arith, grown, v.at);
  counted = ground (arith, grown, v.counted);
  slots = λ j before recent. push_slot r h rec v j before recent;
}
  where
    grown : length (h ++ (rec ∷ [])) ≡ length h + 1
    grown = length-append h (rec ∷ [])

-- Walking the slots from that of record `base` on reads the history from there to its end.
collect_lem :
    {SessionId : Type 0} (r : RoundTripRing SessionId) (h : History) (start base i k : ℕ)
    → Holds r h
    → start ≡ base % 256
    → length h ≤ base + 256
    → base + i + k ≡ length h
    → collect r.records start i k ≡ drop (base + i) h
unfolding collect
collect_lem r h start base i zero v s b e = sym (drop-length_le h (base + i) (omega arith))
collect_lem r h start base i (suc k) v s b e =
    let slot : (start + i) % 256 ≡ (base + i) % 256 = omega arith in
    let here : get_or r.records ((start + i) % 256) blank ≡ get_or h (base + i) blank =
      rw slot (v.slots (base + i) (omega arith) (omega arith)) in
    ap (λ x. x ∷ collect r.records start (i + 1) k) here
    ∙ ap (λ l. get_or h (base + i) blank ∷ l)
        (collect_lem r h start base (i + 1) k v s b (omega arith))
    ∙ ap (λ m. get_or h (base + i) blank ∷ drop m h) (omega arith)
    ∙ sym (drop-cons h (base + i) blank (omega arith))

-- `recent n` is the last `n` records of the history, oldest first: as many as the ring still has.
pub recent_lem :
    {SessionId : Type 0} (r : RoundTripRing SessionId) (h : History) (n : ℕ)
    → Holds r h
    → recent r n ≡ drop (length h - min n (min (length h) 256)) h
unfolding recent
recent_lem r h n v =
    let m = min n (min (length h) 256) in
    let base = length h - m in
    let e : base + 0 ≡ base = omega arith in
    rw v.counted (
      collect_lem r h ((r.next + 256 - m) % 256) base 0 m v (omega (arith, v.at)) (omega arith)
        (omega arith)
      ∙ ap (λ k. drop k h) e)

-- The ring after a whole session's records.
unfoldable pub push_all :
    {SessionId : Type 0} → RoundTripRing SessionId → History → RoundTripRing SessionId
push_all r [] = r
push_all r (rec ∷ recs) = push_all (push r rec) recs

push_all-Holds :
    {SessionId : Type 0} (r : RoundTripRing SessionId) (h recs : History)
    → length h + length recs ≤ 18446744073709551615
    → Holds r h
    → Holds (push_all r recs) (h ++ recs)
unfolding push_all
push_all-Holds r h [] small v = rw append-nil v
push_all-Holds r h (rec ∷ recs) small v =
    let more =
      push_all-Holds (push r rec) (h ++ (rec ∷ [])) recs (omega (arith, length-append h (rec ∷ [])))
        (push-Holds r h rec (omega arith) v) in
    rw (append_assoc h (rec ∷ []) recs) at more

-- After any sequence of at most 2 ^ 64 - 1 pushes on a new ring, the counter is their number, and
-- `recent n` is the last `n` of them, oldest first, or the last 256 where `n` is more, or all
-- where they are fewer.
pub recent-push_all :
    {SessionId : Type 0} (id : SessionId) (recs : History) (n : ℕ)
    → length recs ≤ 18446744073709551615
    → ((push_all (new id) recs).count ≡ length recs)
      × (recent (push_all (new id) recs) n
          ≡ drop (length recs - min n (min (length recs) 256)) recs)
recent-push_all id recs n small =
    let v = push_all-Holds (new id) [] recs (omega arith) (new-Holds id) in
    (v.counted, recent_lem (push_all (new id) recs) recs n v)
