-- ===== src/TreiberStack/Tests.antt =====
-- Runs of the stack, with one thread that pops and with two, and its theorem at a concrete input.
use emb_linux.Prelude.{ℕ, ◌≡◌, refl, List, [], ◌∷◌, ◌++◌, map, Option, none, some}
use emb_linux.Chain.{Chain}
use emb_linux.TreiberStack.{
  System, Choice, begins_push, begins_pop, goes_on, fails_weakly, new, run,
}
use emb_linux.TreiberStack.Invariant.{IsStackHistory, all_popped, in_hand}
use emb_linux.TreiberStack.OnePopper.{one_popper-IsStack}

abbrev blank : ℕ → ℕ
blank n = 0

-- Threads 1 and 2 push 7 and 8 in a race, and thread 0 pops both.
abbrev race : List (ℕ × Choice ℕ)
race =
    (1, begins_push 7 10)
    ∷ (2, begins_push 8 20)
    ∷ (1, goes_on)
    ∷ (2, goes_on)
    ∷ (1, fails_weakly)
    ∷ (2, goes_on)
    ∷ (1, goes_on)
    ∷ (1, goes_on)
    ∷ (0, begins_pop)
    ∷ (0, goes_on)
    ∷ (0, goes_on)
    ∷ (0, goes_on)
    ∷ (0, begins_pop)
    ∷ (0, goes_on)
    ∷ (0, fails_weakly)
    ∷ (0, goes_on)
    ∷ (0, goes_on)
    ∷ (0, goes_on)
    ∷ []

abbrev results_of : Option (System ℕ) → List ℕ
results_of none = []
results_of (some s) = s.results

race-results : results_of (run race (new blank)) ≡ 8 ∷ 7 ∷ []
unfolding run
race-results = refl

-- Threads 0 and 1 pop the same node: 1 has deleted it when 0 reads its link.
abbrev two_poppers : List (ℕ × Choice ℕ)
two_poppers =
    (2, begins_push 8 20)
    ∷ (2, goes_on)
    ∷ (2, goes_on)
    ∷ (0, begins_pop)
    ∷ (1, begins_pop)
    ∷ (1, goes_on)
    ∷ (1, goes_on)
    ∷ (1, goes_on)
    ∷ (0, goes_on)
    ∷ []

two_poppers-undefined : run two_poppers (new blank) ≡ none
unfolding run
two_poppers-undefined = refl

one_popper-IsStack_example :
    (s : System ℕ) × (nodes : List ℕ) × (run race (new blank) ≡ some s)
    × Chain 0 s.next s.head nodes
    × IsStackHistory s.history (map s.content nodes)
    × (all_popped s.history ≡ in_hand s.content (s.phases 0) ++ s.results)
one_popper-IsStack_example = one_popper-IsStack 0 blank race (refl, (refl, tt))
