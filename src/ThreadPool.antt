-- ===== src/ThreadPool.antt =====
-- modern_cpp_core/concurrency/thread_pool.cpp and thread_pool.hpp: the pool of workers with a queue
-- each and a global one. Each critical section is one step, and a schedule orders the steps. Queues
-- of workers and workers are functions of their index. What a task does is not modelled, except
-- that it may call `execute`.
pub mod Moves
pub mod Conservation
pub mod Progress
pub mod Shutdown
mod Tests
use emb_linux.Prelude.{
  ℕ, zero, suc, ◌+◌, ◌%◌, List, [], ◌∷◌, ◌++◌, Bool, true, false, ◌&&◌, not, Option, none, some,
  ◌==◌, ltb, if◌then◌else◌, update,
}

-- Where a worker stands in `worker_loop`: at the test of the stop token, before one of the three
-- places where it looks for a task, with a task that it runs, at the wait, and in the check of the
-- queues after it, at queue `i`.
pub data Worker {ℓ} (T : Type ℓ) : Type ℓ where
  testing : Worker T
  trying_local : Worker T
  trying_global : Worker T
  stealing : (i : ℕ) → Worker T
  running : (task : T) → Worker T
  waiting : Worker T
  checking : (all_empty : Bool) (i : ℕ) → Worker T
  returned : Worker T

-- `accepted` and `executed` list the tasks that `execute` queued and those that have run.
pub record Pool {ℓ} (T : Type ℓ) : Type ℓ where
  pub is_shutdown : Bool
  pub task_queue : List T
  pub local_queues : ℕ → List T
  pub count : ℕ
  pub workers : ℕ → Worker T
  pub stop_requested : ℕ → Bool
  pub accepted : List T
  pub executed : List T

-- A `std::deque` without its last element, and that element.
abbrev pub behind {ℓ} : {T : Type ℓ} → T → Option (List T × T) → Option (List T × T)
behind x none = some ([], x)
behind x (some (ys, y)) = some (x ∷ ys, y)

pub pop_back {ℓ} : {T : Type ℓ} → List T → Option (List T × T)
pop_back [] = none
pop_back (x ∷ xs) = behind x (pop_back xs)

abbrev pub is_empty {ℓ} : {T : Type ℓ} → List T → Bool
is_empty [] = true
is_empty (x ∷ xs) = false

-- The queue that worker `w` tries to steal from in turn `i`, of `n` queues.
abbrev pub target : ℕ → ℕ → ℕ → ℕ
target w i n = (w + i + 1) % n

-- A pool of `n` workers, about to enter `worker_loop`.
abbrev pub new_pool {ℓ} : {T : Type ℓ} → ℕ → Pool T
new_pool n = record {
  is_shutdown = false;
  task_queue = [];
  local_queues = λ i. [];
  count = n;
  workers = λ i. testing;
  stop_requested = λ i. false;
  accepted = [];
  executed = [];
}

abbrev pub at_least_one : ℕ → ℕ
at_least_one n = if n == 0 then 1 else n

-- `create`, where the system starts at most this many threads. `none` is its error.
pub create {ℓ} : {T : Type ℓ} → (system_limit thread_count : ℕ) → Option (Pool T)
create system_limit thread_count =
    if ltb system_limit (at_least_one thread_count)
    then none
    else some (new_pool (at_least_one thread_count))

module _ {ℓ} {T : Type ℓ} where
  abbrev pub set_worker : ℕ → Worker T → Pool T → Pool T
  set_worker w s p = record p { workers = update p.workers w s }

  -- The front of a queue is taken, or the worker goes on to `otherwise`.
  pub take_local : ℕ → List T → Pool T → Pool T
  take_local w [] p = set_worker w trying_global p
  take_local w (task ∷ rest) p = record p {
    local_queues = update p.local_queues w rest;
    workers = update p.workers w (running task);
  }

  pub take_global : ℕ → List T → Pool T → Pool T
  take_global w [] p = set_worker w (stealing 0) p
  take_global w (task ∷ rest) p = record p {
    task_queue = rest;
    workers = update p.workers w (running task);
  }

  pub steal_from : ℕ → ℕ → ℕ → Option (List T × T) → Pool T → Pool T
  steal_from w i victim none p = set_worker w (stealing (suc i)) p
  steal_from w i victim (some (rest, task)) p = record p {
    local_queues = update p.local_queues victim rest;
    workers = update p.workers w (running task);
  }

  -- What the predicate of `wait` answers. The lock of the local queue is taken in it.
  pub wakes : ℕ → Pool T → Bool
  wakes w p =
      if p.is_shutdown then true else not (is_empty p.task_queue && is_empty (p.local_queues w))

  -- The next step of a worker. `owns_lock` is the outcome of `std::try_to_lock`. A wait ends when
  -- its predicate holds or the token is stopped; a wake-up without either changes nothing. The lock
  -- of the global queue is held from the wait to the end of the check; here others may step in
  -- between, so that the schedules of the program are among those of the model.
  pub work : ℕ → Worker T → Bool → Pool T → Pool T
  unfolding take_local take_global steal_from wakes
  work w testing owns_lock p =
      set_worker w (if p.stop_requested w then returned else trying_local) p
  work w trying_local owns_lock p = take_local w (p.local_queues w) p
  work w trying_global owns_lock p = take_global w p.task_queue p
  work w (stealing i) owns_lock p =
      if not (ltb i p.count)
      then set_worker w waiting p
      else if owns_lock
      then steal_from w i (target w i p.count) (pop_back (p.local_queues (target w i p.count))) p
      else set_worker w (stealing (suc i)) p
  work w (running task) owns_lock p = record p {
    executed = p.executed ++ (task ∷ []);
    workers = update p.workers w testing;
  }
  work w waiting owns_lock p =
      if wakes w p
      then set_worker w (if p.is_shutdown then checking (is_empty p.task_queue) 0 else testing) p
      else if p.stop_requested w
      then set_worker w testing p
      else p
  work w (checking all_empty i) owns_lock p =
      if ltb i p.count
      then set_worker w
          (if is_empty (p.local_queues i) then checking all_empty (suc i) else testing) p
      else set_worker w (if all_empty then returned else testing) p
  work w returned owns_lock p = p

  pub push_local : ℕ → T → Pool T → Pool T
  push_local i task p = if p.is_shutdown then p else record p {
    local_queues = update p.local_queues i (p.local_queues i ++ (task ∷ []));
    accepted = p.accepted ++ (task ∷ []);
  }

  pub push_global : T → Pool T → Pool T
  push_global task p = if p.is_shutdown then p else record p {
    task_queue = p.task_queue ++ (task ∷ []);
    accepted = p.accepted ++ (task ∷ []);
  }

  -- `execute`, called by a thread with this worker index.
  pub execute : Option ℕ → T → Pool T → Pool T
  unfolding push_local push_global
  execute none task p = push_global task p
  execute (some i) task p = if ltb i p.count then push_local i task p else push_global task p

-- A step of the pool: a call of `execute`, a step of a worker, and the two parts of the destructor,
-- the flag and the stop request for a worker.
pub data Turn {ℓ} (T : Type ℓ) : Type ℓ where
  executes : (worker_index : Option ℕ) → T → Turn T
  works : (w : ℕ) (owns_lock : Bool) → Turn T
  shuts_down : Turn T
  requests_stop : (w : ℕ) → Turn T

module _ {ℓ} {T : Type ℓ} where
  -- Workers from `count` on do not exist.
  pub turn : Turn T → Pool T → Pool T
  unfolding execute work
  turn (executes worker_index task) p = execute worker_index task p
  turn (works w owns_lock) p = if ltb w p.count then work w (p.workers w) owns_lock p else p
  turn shuts_down p = record p { is_shutdown = true }
  turn (requests_stop w) p = record p { stop_requested = update p.stop_requested w true }

  pub run : List (Turn T) → Pool T → Pool T
  unfolding turn
  run [] p = p
  run (t ∷ ts) p = run ts (turn t p)
