-- ===== src/SingleMutexQueue.antt =====
-- The class threadsafe_queue_single_mutex of C++_ConcurrencyInAction/designLockBase/dataStructures.hpp:
-- a queue under one mutex with a condition variable. A section under the mutex is a step; a thread in
-- wait_and_pop gives the mutex up while it waits, and tests the queue again when it is woken.
pub mod Notify
pub mod Wakeups
mod Tests
use emb_linux.Prelude.{
  ℕ, zero, suc, List, [], ◌∷◌, ◌++◌, Bool, true, false, ltb, ◌&&◌, if◌then◌else◌, update,
}

-- A thread: in no call of wait_and_pop; waiting at `data_cond`; or woken, and about to take the mutex.
pub data Phase : Type 0 where
  outside : Phase
  waiting : Phase
  awake : Phase

abbrev pub is_waiting : Phase → Bool
is_waiting waiting = true
is_waiting outside = false
is_waiting awake = false

-- `pushed` and `received` list the values of the calls of push and those that pops have returned.
pub record System {ℓ} (T : Type ℓ) : Type ℓ where
  pub data_queue : List T
  pub phases : ℕ → Phase
  pub pushed : List T
  pub received : List T

abbrev pub new {ℓ} : {T : Type ℓ} → System T
new = record { data_queue = []; phases = λ t. outside; pushed = []; received = [] }

-- notify_one wakes one of the waiting threads if there is one: thread `w`, or another if that does not
-- wait. The threads are those below `n`.
pub notify_any : ℕ → (ℕ → Phase) → ℕ → Phase
notify_any zero f = f
notify_any (suc n) f =
    let others = notify_any n f in if is_waiting (f n) then update f n awake else others

pub notify_one : ℕ → ℕ → (ℕ → Phase) → ℕ → Phase
unfolding notify_any
notify_one n w f = if ltb w n && is_waiting (f w) then update f w awake else notify_any n f

-- A step: push, with the thread that it would wake; a thread calls wait_and_pop; a thread that was
-- notified takes the mutex; one that was not does; try_pop.
pub data Turn {ℓ} (T : Type ℓ) : Type ℓ where
  pushes : (w : ℕ) → T → Turn T
  calls : (t : ℕ) → Turn T
  resumes : (t : ℕ) → Turn T
  wakes_spuriously : (t : ℕ) → Turn T
  tries : Turn T

module _ {ℓ} {T : Type ℓ} (threads : ℕ) where
  pub push : ℕ → T → System T → System T
  unfolding notify_one
  push w x s = record s {
    data_queue = s.data_queue ++ (x ∷ []);
    phases = notify_one threads w s.phases;
    pushed = s.pushed ++ (x ∷ []);
  }

  -- The test of wait with the mutex held, and what follows when the queue is not empty.
  pub wait_and_pop : ℕ → List T → System T → System T
  wait_and_pop t [] s = record s { phases = update s.phases t waiting }
  wait_and_pop t (x ∷ xs) s = record s {
    data_queue = xs;
    phases = update s.phases t outside;
    received = s.received ++ (x ∷ []);
  }

  abbrev pub try_pop : List T → System T → System T
  try_pop [] s = s
  try_pop (x ∷ xs) s = record s { data_queue = xs; received = s.received ++ (x ∷ []) }

  abbrev pub call : ℕ → Phase → System T → System T
  call t outside s = wait_and_pop t s.data_queue s
  call t waiting s = s
  call t awake s = s

  abbrev pub resume : ℕ → Phase → System T → System T
  resume t outside s = s
  resume t waiting s = s
  resume t awake s = wait_and_pop t s.data_queue s

  abbrev pub wake_spuriously : ℕ → Phase → System T → System T
  wake_spuriously t outside s = s
  wake_spuriously t waiting s = wait_and_pop t s.data_queue s
  wake_spuriously t awake s = s

  -- Threads from `threads` on do not exist.
  pub turn : Turn T → System T → System T
  unfolding push wait_and_pop
  turn (pushes w x) s = push w x s
  turn (calls t) s = if ltb t threads then call t (s.phases t) s else s
  turn (resumes t) s = if ltb t threads then resume t (s.phases t) s else s
  turn (wakes_spuriously t) s = if ltb t threads then wake_spuriously t (s.phases t) s else s
  turn tries s = try_pop s.data_queue s

  pub run : List (Turn T) → System T → System T
  unfolding turn
  run [] s = s
  run (u ∷ us) s = run us (turn u s)

-- Every thread that was notified takes the mutex once.
abbrev pub resume_all {ℓ} : {T : Type ℓ} → ℕ → List (Turn T)
resume_all zero = []
resume_all (suc n) = resumes n ∷ resume_all n
