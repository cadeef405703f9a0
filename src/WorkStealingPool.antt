-- ===== src/WorkStealingPool.antt =====
-- The file C++_ConcurrencyInAction/advancedThreadsManagement/workStealingPool.hpp: a pool whose workers
-- have a deque each and steal from one another. A critical section of a queue is a step. The class
-- thread_safe_queue, which the file uses and the repository does not have, is a parameter. The pool is
-- modelled from the end of its constructor on, and a task does not call run_pending_task itself.
pub mod Conservation
mod Tests
use emb_linux.Prelude.{
  ℕ, zero, suc, ◌+◌, ◌%◌, ◌≡◌, List, [], ◌∷◌, ◌++◌, Bool, true, false, Option, none, some, ◌==◌,
  ltb, if◌then◌else◌, update,
}
use emb_linux.ThreadPool.{pop_back}

-- What the pool relies on of thread_safe_queue: what is in a queue, and that `push` adds a task to it and
-- that `try_pop` takes the task that it answers from the front.
pub record SharedQueue {ℓ} (T : Type ℓ) : Type (ℓ + 1) where
  pub Queue : Type ℓ
  pub empty : Queue
  pub push : T → Queue → Queue
  pub try_pop : Queue → Option (T × Queue)
  pub tasks : Queue → List T

pub record SharedQueueLaws {ℓ} {T : Type ℓ} (q : SharedQueue T) : Type ℓ where
  pub tasks-empty : q.tasks q.empty ≡ []
  pub tasks-push : (x : T) (c : q.Queue) → q.tasks (q.push x c) ≡ q.tasks c ++ (x ∷ [])
  pub try_pop-some :
      (c : q.Queue) (x : T) (d : q.Queue) → q.try_pop c ≡ some (x, d) → q.tasks c ≡ x ∷ q.tasks d

-- Where a thread stands: a worker at the test of `done`; in run_pending_task before one of the three
-- places where it looks for a task, with a task; outside the pool's functions; or returned.
pub data Phase {ℓ} (T : Type ℓ) : Type ℓ where
  testing : Phase T
  trying_local : Phase T
  trying_pool : Phase T
  stealing : (i : ℕ) → Phase T
  running : (task : T) → Phase T
  outside : Phase T
  returned : Phase T

-- `submitted` and `executed` list the tasks of the calls of submit and those that have run.
pub record Pool {ℓ} (T : Type ℓ) (Q : Type ℓ) : Type ℓ where
  pub done : Bool
  pub pool_work_queue : Q
  pub queues : ℕ → List T
  pub phases : ℕ → Phase T
  pub submitted : List T
  pub executed : List T

abbrev pub push_front {ℓ} : {T : Type ℓ} → T → List T → List T
push_front x xs = x ∷ xs

-- A step: a thread goes on, a thread calls submit, a thread that is no worker calls run_pending_task, and
-- the destructor sets `done`.
pub data Turn {ℓ} (T : Type ℓ) : Type ℓ where
  goes_on : (t : ℕ) → Turn T
  submits : (t : ℕ) → T → Turn T
  helps : (t : ℕ) → Turn T
  stops : Turn T

-- The workers are the threads below `count`.
module _ {ℓ} {T : Type ℓ} (q : SharedQueue T) (count : ℕ) where
  abbrev pub new_pool : Pool T q.Queue
  new_pool = record {
    done = false;
    pool_work_queue = q.empty;
    queues = λ i. [];
    phases = λ t. if ltb t count then testing else outside;
    submitted = [];
    executed = [];
  }

  abbrev pub set_phase : ℕ → Phase T → Pool T q.Queue → Pool T q.Queue
  set_phase t p s = record s { phases = update s.phases t p }

  -- A thread that is no worker has no local queue, and its index is 0.
  abbrev pub my_index : ℕ → ℕ
  my_index t = if ltb t count then t else 0

  abbrev pub target : ℕ → ℕ → ℕ
  target t i = (my_index t + i + 1) % count

  -- Where run_pending_task leaves a thread.
  abbrev pub resting : ℕ → Phase T
  resting t = if ltb t count then testing else outside

  pub try_local : ℕ → List T → Pool T q.Queue → Pool T q.Queue
  try_local t [] s = set_phase t trying_pool s
  try_local t (task ∷ rest) s = record s {
    queues = update s.queues t rest;
    phases = update s.phases t (running task);
  }

  pub try_shared : ℕ → Option (T × q.Queue) → Pool T q.Queue → Pool T q.Queue
  try_shared t none s = set_phase t (stealing 0) s
  try_shared t (some (task, rest)) s = record s {
    pool_work_queue = rest;
    phases = update s.phases t (running task);
  }

  pub try_steal : ℕ → ℕ → ℕ → Option (List T × T) → Pool T q.Queue → Pool T q.Queue
  try_steal t i victim none s = set_phase t (stealing (suc i)) s
  try_steal t i victim (some (rest, task)) s = record s {
    queues = update s.queues victim rest;
    phases = update s.phases t (running task);
  }

  pub advance : ℕ → Phase T → Pool T q.Queue → Pool T q.Queue
  unfolding try_local try_shared try_steal
  advance t testing s = set_phase t (if s.done then returned else trying_local) s
  advance t trying_local s =
      if ltb t count then try_local t (s.queues t) s else set_phase t trying_pool s
  advance t trying_pool s = try_shared t (q.try_pop s.pool_work_queue) s
  advance t (stealing i) s =
      if ltb i count
      then try_steal t i (target t i) (pop_back (s.queues (target t i))) s
      else set_phase t (resting t) s
  advance t (running task) s = record s {
    executed = s.executed ++ (task ∷ []);
    phases = update s.phases t (resting t);
  }
  advance t outside s = s
  advance t returned s = s

  -- `submit`, from a worker to the front of its own deque.
  pub submit : ℕ → T → Pool T q.Queue → Pool T q.Queue
  submit t task s =
      if ltb t count
      then record s {
        queues = update s.queues t (push_front task (s.queues t));
        submitted = s.submitted ++ (task ∷ []);
      }
      else record s {
        pool_work_queue = q.push task s.pool_work_queue;
        submitted = s.submitted ++ (task ∷ []);
      }

  abbrev pub help : ℕ → Phase T → Pool T q.Queue → Pool T q.Queue
  help t outside s = set_phase t trying_local s
  help t _ s = s

  -- Threads from `threads` on do not exist.
  pub turn : ℕ → Turn T → Pool T q.Queue → Pool T q.Queue
  unfolding advance submit
  turn threads (goes_on t) s = if ltb t threads then advance t (s.phases t) s else s
  turn threads (submits t task) s = if ltb t threads then submit t task s else s
  turn threads (helps t) s = if ltb t threads then help t (s.phases t) s else s
  turn threads stops s = record s { done = true }

  pub run : ℕ → List (Turn T) → Pool T q.Queue → Pool T q.Queue
  unfolding turn
  run threads [] s = s
  run threads (u ∷ us) s = run threads us (turn threads u s)
