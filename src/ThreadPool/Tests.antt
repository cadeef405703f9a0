-- ===== src/ThreadPool/Tests.antt =====
-- Runs of thread_pool.cpp, and its theorems at concrete inputs.
use emb_linux.Prelude.{
  ℕ, ◌≤◌, ◌≡◌, refl, List, [], ◌∷◌, true, none, some, arith, length, count, ◌==◌, if◌then◌else◌,
  if◌then◌else◌,
}
use emb_linux.ThreadPool.{
  Pool, waiting, running, new_pool, create, pop_back, Turn, executes, works, run,
}
use emb_linux.ThreadPool.Moves.{present}
use emb_linux.ThreadPool.Conservation.{run_conserves}
use emb_linux.ThreadPool.Progress.{turns, worker_finds_task}
use emb_linux.ThreadPool.Shutdown.{stopped_pool_drops}

-- Task 7 comes from outside, and worker 1 gives out task 8, which worker 0 steals.
abbrev script : List (Turn ℕ)
script =
    executes none 7
    ∷ executes (some 1) 8
    ∷ works 0 true
    ∷ works 0 true
    ∷ works 0 true
    ∷ works 0 true
    ∷ works 0 true
    ∷ works 0 true
    ∷ works 0 true
    ∷ works 0 true
    ∷ []

script_ends : (run script (new_pool 2)).workers 0 ≡ running 8
unfolding run pop_back
script_ends = refl

two_workers : create {T = ℕ} 4 2 ≡ some (new_pool 2)
unfolding create
two_workers = refl

run_conserves_example :
    count (λ k. k == 8) (run script (new_pool 2)).accepted
    ≡ present (λ k. k == 8) (run script (new_pool 2))
run_conserves_example = run_conserves (λ k. k == 8) 4 2 script (new_pool 2) two_workers

-- Worker 0 waits, task 7 is queued, and the stop request comes before the worker has woken.
abbrev stopped : Pool ℕ
stopped = record (new_pool 1) {
  task_queue = 7 ∷ [];
  workers = λ w. waiting;
  stop_requested = λ w. true;
  accepted = 7 ∷ [];
}

stopped_pool_drops_example : length (run (turns 0 9) stopped).executed ≤ 0
stopped_pool_drops_example = stopped_pool_drops (turns 0 9) stopped (λ w a. refl)

-- Of three workers, worker 0 has a task in its queue, and worker 1 is to find it.
abbrev laden : Pool ℕ
laden = record (new_pool 3) { local_queues = λ w. if w == 0 then 5 ∷ [] else [] }

worker_finds_task_example :
    (m : ℕ) × (m ≤ 6) × (task : ℕ) × ((run (turns 1 m) laden).workers 1 ≡ running task)
worker_finds_task_example = worker_finds_task 1 laden (omega arith) refl refl (omega arith)
