-- ===== src/Smc/RoundTrip/Tests.antt =====
-- The ring at concrete records.
use fand.Prelude.{ℕ, ◌-◌, min, ◌≡◌, [], ◌∷◌, drop, arith}
use fand.Smc.RoundTrip.{new, recent}
use fand.Smc.RoundTrip.Record
use fand.Smc.RoundTrip.Record.{RoundTripRecord}
use fand.Smc.RoundTrip.Refine.{History, push_all, recent-push_all}

abbrev record_of : ℕ → RoundTripRecord
record_of n = Record.new_match n 1177564263 (n ∷ []) (n ∷ [])

abbrev three : History
three = record_of 1 ∷ record_of 2 ∷ record_of 3 ∷ []

recent-push_all_example :
    ((push_all {SessionId = ℕ} (new 7) three).count ≡ 3)
    × (recent (push_all {SessionId = ℕ} (new 7) three) 2 ≡ drop (3 - min 2 (min 3 256)) three)
recent-push_all_example = recent-push_all 7 three 2 (omega arith)
