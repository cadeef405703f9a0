-- ===== src/WorkStealingPool/Tests.antt =====
-- Runs of the work-stealing pool over a queue that is a list, and a witness.
use emb_linux.Prelude.{
  ℕ, zero, suc, ◌≡◌, refl, List, [], ◌∷◌, ◌++◌, true, Option, none, some, some_inj, none-ne_some,
  arith, ap, count,
}
use emb_linux.WorkStealingPool.{
  SharedQueue, SharedQueueLaws, Turn, goes_on, submits, helps, new_pool, run,
}
use emb_linux.WorkStealingPool.Conservation.{present, run-conserves}

abbrev take_first : List ℕ → Option (ℕ × List ℕ)
take_first [] = none
take_first (x ∷ xs) = some (x, xs)

abbrev list_queue : SharedQueue ℕ
list_queue = record {
  Queue = List ℕ;
  empty = [];
  push = λ x xs. xs ++ (x ∷ []);
  try_pop = take_first;
  tasks = λ xs. xs;
}

take_first-some : (c : List ℕ) (x : ℕ) (d : List ℕ) → take_first c ≡ some (x, d) → c ≡ x ∷ d
take_first-some [] x d e = absurd (none-ne_some e)
take_first-some (y ∷ ys) x d e = ap (λ (p : ℕ × List ℕ). p.0 ∷ p.1) (some_inj e)

list_queue-Laws : SharedQueueLaws list_queue
list_queue-Laws = record {
  tasks-empty = refl;
  tasks-push = λ x c. refl;
  try_pop-some = take_first-some;
}

abbrev goes : ℕ → ℕ → List (Turn ℕ) → List (Turn ℕ)
goes zero t rest = rest
goes (suc n) t rest = goes_on t ∷ goes n t rest

-- Worker 0 submits 1, 2 and 3 to itself and runs 3; worker 1 steals 1; thread 2 submits 4 and runs it.
abbrev script : List (Turn ℕ)
script =
    submits 0 1
    ∷ submits 0 2
    ∷ submits 0 3
    ∷ goes 3 0 (goes 6 1 (submits 2 4 ∷ helps 2 ∷ goes 3 2 []))

run-conserves_example :
    count (λ x. true) (run list_queue 2 3 script (new_pool list_queue 2)).submitted
    ≡ present list_queue list_queue-Laws 2 3
        (omega arith)
        (λ x. true)
        (run list_queue 2 3 script (new_pool list_queue 2))
run-conserves_example =
    run-conserves list_queue list_queue-Laws 2 3 (omega arith) (λ x. true) script
