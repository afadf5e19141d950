-- ===== src/Smc/Race/Laws.antt =====
-- Who releases the fans, and what a lost race costs.
use fand.Prelude.{
  ℕ, ◌≡◌, ◌∙◌, refl, sym, ap, subst, Bool, true, false, Option, none, some, List, [], ◌∷◌, ◌++◌,
}
use fand.Smc.Race.{
  Phase, idle, finished, aside, releasing, Process, state, Step, main_wins, main_loses,
  main_releases, main_ends, signal_wins, signal_loses, thread_releases, thread_ends, Reachable,
  begin, after,
}

-- No exit, or the exit of a lost race.
abbrev IsLost : Option ℕ → Type 0
IsLost none = Unit
IsLost (some code) = code ≡ 1

-- One thread at most has fans to release, and those released and those to release are all the fans.
abbrev pub IsSound : List ℕ → Process → Type 0
IsSound fans (state false main thread e r) = (main ≡ idle) × (thread ≡ idle) × (e ≡ none) × (r ≡ [])
IsSound fans (state true (releasing todo) idle e r) = (r ++ todo ≡ fans) × IsLost e
IsSound fans (state true finished idle e r) = (r ≡ fans) × IsLost e
IsSound fans (state true idle (releasing todo) e r) = (r ++ todo ≡ fans) × (e ≡ none)
IsSound fans (state true aside (releasing todo) e r) = (r ++ todo ≡ fans) × (e ≡ none)
IsSound fans (state true idle finished e r) = (r ≡ fans) × (e ≡ some 0)
IsSound fans (state true aside finished e r) = (r ≡ fans) × (e ≡ some 0)
IsSound fans (state true main thread e r) = ⊥

append_snoc : (r : List ℕ) (i : ℕ) (is : List ℕ) → (r ++ (i ∷ [])) ++ is ≡ r ++ (i ∷ is)
append_snoc [] i is = refl
append_snoc (x ∷ r) i is = ap (λ l. x ∷ l) (append_snoc r i is)

append_nil : (r : List ℕ) → r ++ [] ≡ r
append_nil [] = refl
append_nil (x ∷ r) = ap (λ l. x ∷ l) (append_nil r)

Step-IsSound : {fans : List ℕ} {p q : Process} → Step fans p q → IsSound fans p → IsSound fans q
Step-IsSound {fans} (main_wins t r) (m, th, e, n) =
    subst (λ t. IsSound fans (state true (releasing fans) t none r)) (sym th)
      (ap (λ l. l ++ fans) n, tt)
Step-IsSound (main_loses idle r) h = h
Step-IsSound (main_loses finished r) h = h
Step-IsSound (main_loses aside r) h = h
Step-IsSound (main_loses (releasing todo) r) h = h
Step-IsSound (main_releases false i is t r) (m, th, e, n) = cc
Step-IsSound (main_releases true i is idle r) (all, l) = (append_snoc r i is ∙ all, tt)
Step-IsSound (main_releases true i is finished r) h = h
Step-IsSound (main_releases true i is aside r) h = h
Step-IsSound (main_releases true i is (releasing todo) r) h = h
Step-IsSound (main_ends false t r) (m, th, e, n) = cc
Step-IsSound (main_ends true idle r) (all, l) = (sym (append_nil r) ∙ all, tt)
Step-IsSound (main_ends true finished r) h = absurd h
Step-IsSound (main_ends true aside r) h = h
Step-IsSound (main_ends true (releasing todo) r) h = h
Step-IsSound {fans} (signal_wins m r) (i, th, e, n) =
    subst (λ m. IsSound fans (state true m (releasing fans) none r)) (sym i)
      (ap (λ l. l ++ fans) n, refl)
Step-IsSound (signal_loses idle r) h = h
Step-IsSound (signal_loses finished r) (all, l) = (all, refl)
Step-IsSound (signal_loses aside r) h = h
Step-IsSound (signal_loses (releasing todo) r) (all, l) = (all, refl)
Step-IsSound (thread_releases false m i is r) (m', th, e, n) = cc
Step-IsSound (thread_releases true idle i is r) (all, e) = (append_snoc r i is ∙ all, refl)
Step-IsSound (thread_releases true aside i is r) (all, e) = (append_snoc r i is ∙ all, refl)
Step-IsSound (thread_releases true finished i is r) h = h
Step-IsSound (thread_releases true (releasing todo) i is r) h = h
Step-IsSound (thread_ends false m r) (m', th, e, n) = cc
Step-IsSound (thread_ends true idle r) (all, e) = (sym (append_nil r) ∙ all, refl)
Step-IsSound (thread_ends true aside r) (all, e) = (sym (append_nil r) ∙ all, refl)
Step-IsSound (thread_ends true finished r) h = h
Step-IsSound (thread_ends true (releasing todo) r) h = h

-- However the main thread and the thread of the signals take turns: one of them at most releases
-- fans, what it released and what it has yet to release are all the fans in their order, and where
-- the thread of the signals ended the process with code 0, every fan was released.
pub Reachable-IsSound : {fans : List ℕ} {p : Process} → Reachable fans p → IsSound fans p
Reachable-IsSound begin = (refl, refl, refl, refl)
Reachable-IsSound (after r s) = Step-IsSound s (Reachable-IsSound r)

-- Which thread takes a step.
abbrev pub by_signal : {fans : List ℕ} {p q : Process} → Step fans p q → Bool
by_signal (main_wins t r) = false
by_signal (main_loses t r) = false
by_signal (main_releases f i is t r) = false
by_signal (main_ends f t r) = false
by_signal (signal_wins m r) = true
by_signal (signal_loses m r) = true
by_signal (thread_releases f m i is r) = true
by_signal (thread_ends f m r) = true

-- What a step of the thread of the signals does to a process whose main thread releases fans.
abbrev IsCut : (fans : List ℕ) → Process → Process → Type 0
IsCut fans (state f (releasing todo) t e r) q =
    (q ≡ state true (releasing todo) idle (some 1) r) × (r ++ todo ≡ fans)
IsCut fans p q = Unit

Step-IsCut :
    {fans : List ℕ} {p q : Process} (step : Step fans p q)
    → IsSound fans p
    → by_signal step ≡ true
    → IsCut fans p q
Step-IsCut (main_wins t r) h by = cc
Step-IsCut (main_loses t r) h by = cc
Step-IsCut (main_releases f i is t r) h by = cc
Step-IsCut (main_ends f t r) h by = cc
Step-IsCut (signal_wins idle r) h by = tt
Step-IsCut (signal_wins finished r) h by = tt
Step-IsCut (signal_wins aside r) h by = tt
Step-IsCut (signal_wins (releasing todo) r) (m, th, e, n) by = cc
Step-IsCut (signal_loses idle r) h by = tt
Step-IsCut (signal_loses finished r) h by = tt
Step-IsCut (signal_loses aside r) h by = tt
Step-IsCut (signal_loses (releasing todo) r) (all, l) by = (refl, all)
Step-IsCut (thread_releases f idle i is r) h by = tt
Step-IsCut (thread_releases f finished i is r) h by = tt
Step-IsCut (thread_releases f aside i is r) h by = tt
Step-IsCut (thread_releases false (releasing todo) i is r) (m, th, e, n) by = cc
Step-IsCut (thread_releases true (releasing todo) i is r) h by = absurd h
Step-IsCut (thread_ends f idle r) h by = tt
Step-IsCut (thread_ends f finished r) h by = tt
Step-IsCut (thread_ends f aside r) h by = tt
Step-IsCut (thread_ends false (releasing todo) r) (m, th, e, n) by = cc
Step-IsCut (thread_ends true (releasing todo) r) h by = absurd h

-- Wherever the main thread is in its release of the fans, any step that the thread of the signals takes ends the process with code 1, with only those
-- fans released that the main thread had reached, and those that it had yet to release not.
pub first_signal_cuts :
    {fans : List ℕ} {thread : Phase} {q : Process} (f : Bool) (reached todo : List ℕ)
    → Reachable fans (state f (releasing todo) thread none reached)
    → (step : Step fans (state f (releasing todo) thread none reached) q) → by_signal step ≡ true
    → (q ≡ state true (releasing todo) idle (some 1) reached) × (reached ++ todo ≡ fans)
first_signal_cuts f reached todo h step by = Step-IsCut step (Reachable-IsSound h) by
