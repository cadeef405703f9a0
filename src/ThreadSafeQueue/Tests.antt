-- ===== src/ThreadSafeQueue/Tests.antt =====
-- Runs of thread_safe_queue.hpp, and its theorems at concrete inputs.
use emb_linux.Prelude.{ℕ, ◌≡◌, refl, List, [], ◌∷◌, ◌++◌, some, none, arith}
use emb_linux.ThreadSafeQueue.{
  State, Action, new, run, push, enqueue, acquire, take, release, try_pop,
}
use emb_linux.ThreadSafeQueue.Laws.{Inv, new-Inv, run-Inv, run-defined, try_pop_then_wait_undefined}

abbrev one_item : State ℕ
one_item = record {
  items = 7 ∷ [];
  permits = 1;
  releasing = 0;
  acquired = 0;
  pushed = 7 ∷ [];
  tried = [];
  received = [];
}

-- A `wait_and_pop` that passes the semaphore of one push and takes the value of another.
abbrev mixed : List (Action ℕ)
mixed = enqueue 1 ∷ enqueue 2 ∷ release ∷ acquire ∷ take ∷ release ∷ []

pushes_one : run (push 7) new ≡ some one_item
unfolding run
pushes_one = refl

run-Inv_example : Inv one_item
unfolding run
run-Inv_example = run-Inv (push 7) new-Inv refl

run-defined_example : (t : State ℕ) × (run mixed new ≡ some t) × (t.pushed ≡ t.received ++ t.items)
run-defined_example = run-defined mixed (refl, (refl, (refl, (refl, (refl, (refl, tt))))))

try_pop_then_wait_undefined_example : run (try_pop ∷ acquire ∷ take ∷ []) one_item ≡ none
try_pop_then_wait_undefined_example = try_pop_then_wait_undefined one_item (omega arith) refl
