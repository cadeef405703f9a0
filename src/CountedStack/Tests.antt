-- ===== src/CountedStack/Tests.antt =====
-- Runs of lock_free_stack on concrete schedules, and a witness.
use emb_linux.Prelude.{◌>>=◌, ℕ, ◌≡◌, refl, List, [], ◌∷◌, Bool, true, Option, some, sub_ℕ}
use emb_linux.CountedStack.{
  System, Event, pushed, popped, new, Choice, begins_push, begins_pop, goes_on, fails_weakly, run,
}
use emb_linux.CountedStack.Roles.{IsStackHistory}
use emb_linux.CountedStack.Safety.{Holds, run-IsStack}

-- Thread 0 pushes 7 at address 4; both threads then pop, thread 1 wins the node, and thread 0, the
-- last one to refer to it, deletes it. Thread 1 pushes 8 at the same address.
abbrev race : List (ℕ × Choice ℕ)
race =
    (0, begins_push 7 4)
    ∷ (0, fails_weakly)
    ∷ (0, goes_on)
    ∷ (0, begins_pop)
    ∷ (1, begins_pop)
    ∷ (0, goes_on)
    ∷ (1, goes_on)
    ∷ (1, goes_on)
    ∷ (1, goes_on)
    ∷ (1, goes_on)
    ∷ (1, goes_on)
    ∷ (1, goes_on)
    ∷ (1, goes_on)
    ∷ (0, goes_on)
    ∷ (0, goes_on)
    ∷ (0, goes_on)
    ∷ (1, begins_push 8 4)
    ∷ (1, goes_on)
    ∷ []

abbrev outcome : System ℕ → Option (List (Event ℕ) × ℕ × Bool)
outcome s = some (s.history, s.head.ptr, s.in_use 4)

race-outcome :
    (run 2 race new >>= outcome) ≡ some (pushed 8 ∷ popped (some 7) ∷ pushed 7 ∷ [], 4, true)
unfolding run sub_ℕ
race-outcome = refl

run-IsStack_example :
    (s : System ℕ) × (run 2 race new ≡ some s)
    × ((xs : List ℕ) × Holds s s.head xs × IsStackHistory s.history xs)
run-IsStack_example = run-IsStack 2 race
