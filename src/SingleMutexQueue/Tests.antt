-- ===== src/SingleMutexQueue/Tests.antt =====
-- Runs of the queue with a condition variable, and its theorem at a concrete input.
use emb_linux.Prelude.{ℕ, ◌≡◌, refl, List, [], ◌∷◌, ◌++◌, ◌⊎◌}
use emb_linux.SingleMutexQueue.{
  new, Turn, pushes, calls, resumes, wakes_spuriously, tries, run, resume_all,
}
use emb_linux.SingleMutexQueue.Notify.{all_waiting}
use emb_linux.SingleMutexQueue.Wakeups.{run_fifo-awake}

-- Threads 0 and 1 wait; two values come, of which thread 2 takes one before a notified thread does.
abbrev schedule : List (Turn ℕ)
schedule =
    calls 0
    ∷ calls 1
    ∷ wakes_spuriously 0
    ∷ pushes 1 7
    ∷ pushes 1 8
    ∷ calls 2
    ∷ resumes 1
    ∷ resumes 0
    ∷ tries
    ∷ []

schedule-received : (run 3 schedule new).received ≡ 7 ∷ 8 ∷ []
unfolding run
schedule-received = refl

schedule-waiting : all_waiting 3 (run 3 schedule new).phases ≡ 1
unfolding run
schedule-waiting = refl

run_fifo-awake_example :
    ((run 3 schedule new).pushed ≡ (run 3 schedule new).received ++ (run 3 schedule new).data_queue)
    × (((run 3 (resume_all 3) (run 3 schedule new)).data_queue ≡ [])
        ⊎ (all_waiting 3 (run 3 (resume_all 3) (run 3 schedule new)).phases ≡ 0))
run_fifo-awake_example = run_fifo-awake 3 schedule
