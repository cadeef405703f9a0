-- ===== src/EventLoop/Tests.antt =====
-- Runs of the event loop, and a witness.
use emb_linux.Prelude.{ℕ, ◌≤◌, ◌≡◌, refl, List, [], ◌∷◌, ◌==◌, count}
use emb_linux.EventLoop.{Choice, registers, polls, goes_on, new, run}
use emb_linux.EventLoop.Resumes.{run-resumed}

-- Thread 0 registers coroutine 7 for descriptor 5, and thread 1 polls.
abbrev in_order : List (ℕ × Choice)
in_order =
    (0, registers 5 7) ∷ (0, goes_on) ∷ (1, polls (5 ∷ [])) ∷ (1, goes_on) ∷ (1, goes_on) ∷ []

in_order_resumed : (run 2 in_order new).resumed ≡ 7 ∷ []
unfolding run
in_order_resumed = refl

-- The event comes after epoll_ctl and before the map is written: the coroutine is not resumed, and the
-- descriptor is disarmed, so that no later poll resumes it.
abbrev too_early : List (ℕ × Choice)
too_early =
    (0, registers 5 7)
    ∷ (1, polls (5 ∷ []))
    ∷ (1, goes_on)
    ∷ (1, goes_on)
    ∷ (0, goes_on)
    ∷ (1, polls (5 ∷ []))
    ∷ (1, goes_on)
    ∷ (1, goes_on)
    ∷ []

too_early_resumed : (run 2 too_early new).resumed ≡ []
unfolding run
too_early_resumed = refl

run-resumed_example :
    count (λ d. 7 == d) (run 2 in_order new).resumed
    ≤ count (λ d. 7 == d) (run 2 in_order new).stored
run-resumed_example = run-resumed 2 7 in_order
