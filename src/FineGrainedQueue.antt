-- ===== src/FineGrainedQueue.antt =====
-- The class threadsafe_queue_fine_grained of C++_ConcurrencyInAction/designLockBase/
-- dataStructures.hpp: a linked list with a dummy node at the end, under a lock for each end. Nodes
-- are numbered from 1 in the order of their allocation, and 0 is null. A step is a section under
-- `tail_mutex`, or the rest of a pop under `head_mutex` after its read of the tail.
pub mod Laws
mod Tests
use emb_linux.Prelude.{
  ℕ, zero, suc, ◌+◌, List, [], ◌∷◌, ◌++◌, Bool, true, false, Option, none, some, ◌==◌,
  if◌then◌else◌, update,
}

-- `holder` is the thread that holds `head_mutex`, by the tail that it has read. `pushed` and
-- `popped` list the values in the order of the sections that moved them.
pub record Queue {ℓ} (A : Type ℓ) : Type ℓ where
  pub data_at : ℕ → Option A
  pub next : ℕ → ℕ
  pub head : ℕ
  pub tail : ℕ
  pub next_node : ℕ
  pub holder : Option ℕ
  pub pushed : List A
  pub popped : List A

abbrev pub new {ℓ} : {A : Type ℓ} → Queue A
new = record {
  data_at = λ i. none;
  next = λ i. 0;
  head = 1;
  tail = 1;
  next_node = 2;
  holder = none;
  pushed = [];
  popped = [];
}

-- A section: of `push`, of `get_tail` in a pop, or the rest of that pop.
pub data Section {ℓ} (A : Type ℓ) : Type ℓ where
  pushes : A → Section A
  gets_tail : Section A
  pops_head : Section A

module _ {ℓ} {A : Type ℓ} where
  -- The section of `push`, with the node allocated before it.
  pub push : A → Queue A → Queue A
  push new_value q = record q {
    data_at = update q.data_at q.tail (some new_value);
    next = update (update q.next q.next_node 0) q.tail q.next_node;
    tail = q.next_node;
    next_node = suc q.next_node;
    pushed = q.pushed ++ (new_value ∷ []);
  }

  -- `head_mutex` is taken and the tail is read; a thread that finds the lock taken blocks.
  pub get_tail : Option ℕ → Queue A → Queue A
  get_tail none q = record q { holder = some q.tail }
  get_tail (some t) q = q

  -- `pop_head` of a node with these data, and the use of the data. `none` is a use of null.
  pub pop_head : Option A → Queue A → Option (Queue A)
  pop_head none q = none
  pop_head (some value) q =
      some (record q { head = q.next q.head; holder = none; popped = q.popped ++ (value ∷ []) })

  -- The holder compares the head with the tail that it has read. When they are equal, `try_pop`
  -- answers that the queue is empty, and `wait_and_pop` releases the lock to wait.
  pub try_pop_head : Option ℕ → Queue A → Option (Queue A)
  unfolding pop_head
  try_pop_head none q = some q
  try_pop_head (some t) q =
      if q.head == t then some (record q { holder = none }) else pop_head (q.data_at q.head) q

  pub step : Section A → Queue A → Option (Queue A)
  unfolding push get_tail try_pop_head
  step (pushes value) q = some (push value q)
  step gets_tail q = some (get_tail q.holder q)
  step pops_head q = try_pop_head q.holder q

  pub run : List (Section A) → Queue A → Option (Queue A)
  unfolding step
  run [] q = some q
  run (s ∷ ss) q = elim (step s q) [ none ↦ none | some r ↦ run ss r ]
