-- ===== src/Smc/Race/Tests.antt =====
-- Two fans, of which the thread of the signals has released one.
use fand.Prelude.{List, ℕ, ◌≡◌, refl, true, none, some, [], ◌∷◌}
use fand.Smc.Race.{
  Process, state, idle, aside, releasing, Reachable, begin, after, signal_wins, thread_releases,
  main_loses, main_wins, main_releases, signal_loses,
}
use fand.Smc.Race.Laws.{IsSound, Reachable-IsSound, first_signal_cuts}

abbrev half : Process
half = state true aside (releasing (1 ∷ [])) none (0 ∷ [])

half_reached : Reachable (0 ∷ 1 ∷ []) half
half_reached =
    after (after (after begin (signal_wins idle [])) (main_loses (releasing (0 ∷ 1 ∷ [])) []))
      (thread_releases true aside 0 (1 ∷ []) [])

Reachable-IsSound_example : IsSound (0 ∷ 1 ∷ []) half
Reachable-IsSound_example = Reachable-IsSound half_reached

abbrev two_fans : List ℕ
two_fans = 0 ∷ 1 ∷ []

one_released : Reachable (0 ∷ 1 ∷ []) (state true (releasing (1 ∷ [])) idle none (0 ∷ []))
one_released = after (after begin (main_wins idle [])) (main_releases true 0 (1 ∷ []) idle [])

first_signal_cuts_example :
    (state true (releasing (1 ∷ [])) idle (some 1) (0 ∷ [])
      ≡ state true (releasing (1 ∷ [])) idle (some 1) (0 ∷ []))
    × (two_fans ≡ two_fans)
first_signal_cuts_example =
    first_signal_cuts true (0 ∷ []) (1 ∷ []) one_released
      (signal_loses (releasing (1 ∷ [])) (0 ∷ [])) refl
