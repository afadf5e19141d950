-- ===== src/Smc/RoundTrip.antt =====
-- src/smc/round_trip.rs: the ring of the last 256 writes.
pub mod Record
pub mod Refine
mod Tests
use fand.Prelude.{
  ℕ, zero, suc, ◌+◌, ◌-◌, ◌%◌, min, List, [], ◌∷◌, ltb, set, get_or, replicate, if◌then◌else◌,
}
use fand.Smc.RoundTrip.Record.{RoundTripRecord, blank}

-- The identifier of the session is the ring's for good, so any type serves.
pub record RoundTripRing (SessionId : Type 0) : Type 0 where
  pub session_id : SessionId
  pub records : List RoundTripRecord  -- 256 of them
  pub next : ℕ
  pub count : ℕ  -- u64

abbrev pub u64_max : ℕ
u64_max = 18446744073709551615

-- `(0..take).map(|i| records[(start + i) % 256])`, from `i` on with `k` to go.
collect : List RoundTripRecord → ℕ → ℕ → ℕ → List RoundTripRecord
collect records start i zero = []
collect records start i (suc k) =
    get_or records ((start + i) % 256) blank ∷ collect records start (i + 1) k

module _ {SessionId : Type 0} where
  unfoldable pub new : SessionId → RoundTripRing SessionId
  new id = record { session_id = id; records = replicate 256 blank; next = 0; count = 0 }

  unfoldable pub push : RoundTripRing SessionId → RoundTripRecord → RoundTripRing SessionId
  push r rec = record r {
    records = set r.records r.next rec;
    next = (r.next + 1) % 256;
    count = if ltb r.count u64_max then r.count + 1 else u64_max;
  }

  unfoldable pub recent : RoundTripRing SessionId → ℕ → List RoundTripRecord
  unfolding collect
  recent r n =
      let available = min r.count 256 in
      let take = min n available in
      let start = (r.next + 256 - take) % 256 in collect r.records start 0 take
