-- ===== src/Smc/RoundTrip/Record.antt =====
-- src/smc/round_trip.rs: one write with its read-back, in 24 bytes.
use fand.Prelude.{ℕ, zero, suc, min, List, [], ◌∷◌, length}

pub data RoundTripOutcome : Type 0 where
  match write_failed readback_failed mismatch : RoundTripOutcome

pub record RoundTripRecord : Type 0 where
  pub timestamp_ns : ℕ
  pub fourcc : ℕ
  pub written_bytes : List ℕ  -- [u8; 4]
  pub readback_bytes : List ℕ  -- [u8; 4]
  pub written_len : ℕ
  pub readback_len : ℕ
  pub outcome : RoundTripOutcome
  pub pad : ℕ

-- `[0u8; n]` with the first bytes copied in, as many as there are.
padded : ℕ → List ℕ → List ℕ
padded zero bytes = []
padded (suc n) [] = 0 ∷ padded n []
padded (suc n) (b ∷ bytes) = b ∷ padded n bytes

unfoldable pub new : ℕ → ℕ → List ℕ → List ℕ → RoundTripOutcome → RoundTripRecord
unfolding padded
new timestamp_ns fourcc written readback outcome = record {
  timestamp_ns = timestamp_ns;
  fourcc = fourcc;
  written_bytes = padded 4 written;
  readback_bytes = padded 4 readback;
  written_len = min (length written) 4;
  readback_len = min (length readback) 4;
  outcome = outcome;
  pad = 0;
}

unfoldable pub new_match : ℕ → ℕ → List ℕ → List ℕ → RoundTripRecord
unfolding new
new_match timestamp_ns fourcc written readback = new timestamp_ns fourcc written readback match

abbrev pub blank : RoundTripRecord
blank = record {
  timestamp_ns = 0;
  fourcc = 0;
  written_bytes = 0 ∷ 0 ∷ 0 ∷ 0 ∷ [];
  readback_bytes = 0 ∷ 0 ∷ 0 ∷ 0 ∷ [];
  written_len = 0;
  readback_len = 0;
  outcome = match;
  pad = 0;
}
