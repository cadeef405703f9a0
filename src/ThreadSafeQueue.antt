-- ===== src/ThreadSafeQueue.antt =====
-- modern_cpp_core/data_structures/thread_safe_queue.hpp: a locked queue with a counting semaphore.
-- Each region under the mutex, and each semaphore operation, is one atomic action; a call that has
-- two of them can be interrupted in between. `none` is undefined behaviour: `front` and `pop` of an
-- empty `std::queue`. The semaphore's own limit (`PTRDIFF_MAX`) is not modelled.
pub mod Laws
mod Tests
use emb_linux.Prelude.{
  ℕ, zero, suc, ◌+◌, List, [], ◌∷◌, ◌++◌, Bool, true, false, Option, none, some,
}

-- `items` and `permits` are `m_queue` and `m_sem`. `releasing` counts the threads in `push` between
-- the unlock and the release, `acquired` those in `wait_and_pop` between the acquire and the lock.
-- `pushed`, `tried` and `received` record the values of the pushes, those that `try_pop` returned,
-- and those that either pop returned.
pub record State {ℓ} (A : Type ℓ) : Type ℓ where
  pub items : List A
  pub permits : ℕ
  pub releasing : ℕ
  pub acquired : ℕ
  pub pushed : List A
  pub tried : List A
  pub received : List A

abbrev pub new {ℓ} : {A : Type ℓ} → State A
new = record {
  items = [];
  permits = 0;
  releasing = 0;
  acquired = 0;
  pushed = [];
  tried = [];
  received = [];
}

pub data Action {ℓ} (A : Type ℓ) : Type ℓ where
  enqueue : A → Action A  -- `push` under the lock
  release : Action A  -- the rest of `push`
  try_pop : Action A
  acquire : Action A  -- `wait_and_pop` up to the semaphore
  take : Action A  -- the rest of `wait_and_pop`

module _ {ℓ} {A : Type ℓ} where
  pub push_locked : A → State A → State A
  push_locked value s = record s {
    items = s.items ++ (value ∷ []);
    releasing = suc s.releasing;
    pushed = s.pushed ++ (value ∷ []);
  }

  -- Only a thread that is between the unlock and the release can release.
  release_from : ℕ → State A → State A
  release_from zero s = s
  release_from (suc n) s = record s { releasing = n; permits = suc s.permits }

  try_pop_from : List A → State A → State A
  try_pop_from [] s = s
  try_pop_from (x ∷ xs) s = record s {
    items = xs;
    tried = s.tried ++ (x ∷ []);
    received = s.received ++ (x ∷ []);
  }

  -- With no permit the caller blocks, and nothing changes.
  acquire_from : ℕ → State A → State A
  acquire_from zero s = s
  acquire_from (suc n) s = record s { permits = n; acquired = suc s.acquired }

  take_front : ℕ → List A → State A → Option (State A)
  take_front zero items s = some s
  take_front (suc n) [] s = none
  take_front (suc n) (x ∷ xs) s =
      some (record s { items = xs; acquired = n; received = s.received ++ (x ∷ []) })

  pub step : Action A → State A → Option (State A)
  unfolding push_locked release_from try_pop_from acquire_from take_front
  step (enqueue value) s = some (push_locked value s)
  step release s = some (release_from s.releasing s)
  step try_pop s = some (try_pop_from s.items s)
  step acquire s = some (acquire_from s.permits s)
  step take s = take_front s.acquired s.items s

  pub run : List (Action A) → State A → Option (State A)
  unfolding step
  run [] s = some s
  run (a ∷ rest) s = elim (step a s) [ none ↦ none | some t ↦ run rest t ]

  -- `push`, with nothing in between.
  abbrev pub push : A → List (Action A)
  push value = enqueue value ∷ release ∷ []

  -- `wait_and_pop`, with nothing in between.
  abbrev pub wait_and_pop : List (Action A)
  wait_and_pop = acquire ∷ take ∷ []

  abbrev is_empty : List A → Bool
  is_empty [] = true
  is_empty (x ∷ xs) = false

  pub empty : State A → Bool
  empty s = is_empty s.items
