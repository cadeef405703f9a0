-- ===== src/FineGrainedQueue/Tests.antt =====
-- A run of threadsafe_queue_fine_grained, and its theorem at a concrete input.
use emb_linux.Prelude.{ℕ, ◌≡◌, List, [], ◌∷◌, ◌++◌, some}
use emb_linux.FineGrainedQueue.{Queue, new, Section, pushes, gets_tail, pops_head, run}
use emb_linux.FineGrainedQueue.Laws.{Linked, run_fifo-Linked}

-- The second push comes while a pop holds the lock of the head.
abbrev script : List (Section ℕ)
script = pushes 4 ∷ gets_tail ∷ pushes 5 ∷ pops_head ∷ gets_tail ∷ []

run_fifo-Linked_example :
    (q : Queue ℕ) × (items : List ℕ) × (run script new ≡ some q)
    × Linked q.data_at q.next q.tail q.head items
    × (q.pushed ≡ q.popped ++ items)
run_fifo-Linked_example = run_fifo-Linked script
