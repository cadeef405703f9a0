-- ===== src/LockFreeQueue/Tests.antt =====
-- Runs of the ring of lock_free_queue.hpp, and its theorems at concrete inputs.
use emb_linux.Prelude.{ℕ, ◌+◌, ◌≡◌, ◌≢◌, refl, List, [], ◌∷◌, ◌++◌, false, arith}
use emb_linux.LockFreeQueue.{Queue, Turn, System, producer_turn, consumer_turn, push, run, initial}
use emb_linux.LockFreeQueue.Sequential.{Holds}
use emb_linux.LockFreeQueue.Interleaved.{run_fifo, run_no_race}

-- Three cells, two of them usable: 8 in the last cell and 9 in the first.
abbrev wrapped : Queue ℕ
wrapped = record { buffer = λ i. i + 6; head = 2; tail = 0 }

wrapped-Holds : Holds 2 wrapped (8 ∷ [])
wrapped-Holds = record {
  small = omega arith;
  head_in = omega arith;
  fits = omega arith;
  tail_at = refl;
  values = refl;
}

push_full : (push 1 5 (record { buffer = λ i. i; head = 1; tail = 0 })).0 ≡ false
unfolding push
push_full = refl

-- A push that is overtaken by a pop between its check and its write.
abbrev schedule : List (Turn ℕ)
schedule =
    producer_turn 4
    ∷ producer_turn 4
    ∷ producer_turn 4
    ∷ producer_turn 4
    ∷ producer_turn 5
    ∷ producer_turn 5
    ∷ consumer_turn
    ∷ consumer_turn
    ∷ []

abbrev blank : System ℕ
blank = initial (λ i. 0)

schedule_runs : (run 3 (schedule ++ (consumer_turn ∷ consumer_turn ∷ [])) blank).taken ≡ 4 ∷ []
unfolding run
schedule_runs = refl

run_fifo_example :
    (xs : List ℕ) × ((run 3 schedule blank).accepted ≡ (run 3 schedule blank).taken ++ xs)
    × Holds 3 (run 3 schedule blank).queue xs
run_fifo_example = run_fifo 3 (λ i. 0) schedule (omega arith)

run_no_race_example : ◌≢◌ {A = ℕ} 1 0
unfolding run
run_no_race_example = run_no_race 3 (λ i. 0) schedule 1 0 5 (omega arith) refl refl
