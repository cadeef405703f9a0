-- ===== src/PartialSum/Tests.antt =====
-- A witness for the partial sum: three threads and some of their steps.
use emb_linux.Prelude.{ℕ, ◌+◌, ◌≢◌, List, [], ◌∷◌, arith}
use emb_linux.PartialSum.{returned, start, run}
use emb_linux.PartialSum.Deadlock.{run-stuck}

abbrev steps : List ℕ
steps = 0 ∷ 1 ∷ 2 ∷ 1 ∷ 2 ∷ 2 ∷ 1 ∷ 0 ∷ 1 ∷ 2 ∷ 2 ∷ 1 ∷ []

run-stuck_example :
    (run (λ a b. a + b) 3 steps (start (λ a b. a + b) 3 (λ i. i) (λ i. 0))).phases 2 ≢ returned
run-stuck_example =
    run-stuck (λ a b. a + b) 3 (λ i. i) (λ i. 0) steps (omega arith) (omega arith) 2 (omega arith)
      (omega arith)
