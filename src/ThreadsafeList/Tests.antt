-- ===== src/ThreadsafeList/Tests.antt =====
-- Runs of threadsafe_list, and witnesses.
use emb_linux.Prelude.{
  ◌>>=◌, ℕ, ◌<◌, ◌≡◌, ◌≢◌, refl, List, [], ◌∷◌, Bool, true, false, Option, some, ◌==◌, sym, ap, ◌∙◌,
  some_inj, arith,
}
use emb_linux.ThreadsafeList.{
  Walk, calls, removes, Phase, idle, standing, System, Choice, begins_push, begins_walk, goes_on,
  new, run,
}
use emb_linux.ThreadsafeList.Progress.{Leads, CanGoOn, run-Leads, run-unblocked}

abbrev twice : List (ℕ × Choice ℕ) → List (ℕ × Choice ℕ)
twice rest = (0, goes_on) ∷ (0, goes_on) ∷ rest

-- Thread 0 pushes 7 and 8; thread 1 removes 8, while thread 0 visits the list behind it.
abbrev pursuit : List (ℕ × Choice ℕ)
pursuit =
    (0, begins_push 7 4)
    ∷ twice (
        (0, begins_push 8 5)
        ∷ twice (
            (1, begins_walk (removes (λ x. x == 8)))
            ∷ (1, goes_on)
            ∷ (1, goes_on)
            ∷ (0, begins_walk calls)
            ∷ (0, goes_on)
            ∷ (1, goes_on)
            ∷ (1, goes_on)
            ∷ (1, goes_on)
            ∷ (1, goes_on)
            ∷ (1, goes_on)
            ∷ twice (twice (twice (twice [])))))

abbrev outcome : System ℕ → Option (List (ℕ × ℕ) × ℕ × Bool × Bool)
outcome s = some (s.visited, s.next 0, s.in_use 4, s.in_use 5)

pursuit-outcome : (run 2 pursuit new >>= outcome) ≡ some ((0, 7) ∷ [], 4, true, false)
unfolding run
pursuit-outcome = refl

run-Leads_example :
    (s : System ℕ) × (run 2 pursuit new ≡ some s) × ((nodes : List ℕ) × Leads s 0 nodes)
run-Leads_example = run-Leads 2 pursuit

-- Thread 1 waits at the head for the node that thread 0 visits.
abbrev queueing : List (ℕ × Choice ℕ)
queueing =
    (0, begins_push 7 4)
    ∷ twice (
        (0, begins_walk calls)
        ∷ twice ((0, goes_on) ∷ (1, begins_walk calls) ∷ (1, goes_on) ∷ (1, goes_on) ∷ []))

abbrev queue : System ℕ
queue = (run-Leads 2 queueing).0

abbrev second_phase : System ℕ → Option (Phase ℕ)
second_phase s = some (s.phases 1)

runs_to_standing : (run 2 queueing new >>= second_phase) ≡ some (standing 0 calls)
unfolding run
runs_to_standing = refl

queue-standing : queue.phases 1 ≡ standing 0 calls
queue-standing =
    some_inj (sym (ap (λ o. o >>= second_phase) (run-Leads 2 queueing).1) ∙ runs_to_standing)

standing-ne_idle : (c : ℕ) (w : Walk ℕ) → standing c w ≢ idle
standing-ne_idle c w h = cc

run-unblocked_example : (u : ℕ) × (u < 2) × CanGoOn queue u
run-unblocked_example =
    run-unblocked 2 queueing queue 1 (run-Leads 2 queueing).1 (omega arith)
      (λ e. standing-ne_idle 0 calls (sym queue-standing ∙ e))
