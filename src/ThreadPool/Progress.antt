-- ===== src/ThreadPool/Progress.antt =====
-- How a worker of thread_pool.cpp looks for a task.
use emb_linux.Prelude.{
  ℕ, zero, suc, ◌+◌, ◌-◌, ◌<◌, ◌≤◌, ◌≡◌, refl, sym, ap, ◌∙◌, List, [], ◌∷◌, true, false, not,
  Option, none, some, lt→ltb, update_self, if◌then◌else◌, arith, sum, sum_positive, Option-cases,
  inl, inr, subst, length, mod_once,
}
use native.Mathlib.Decide.{dec_lt}
use emb_linux.ThreadPool.{
  Pool, Worker, testing, trying_local, trying_global, stealing, running, waiting, returned,
  pop_back, set_worker, take_local, take_global, target, steal_from, work, Turn, works, turn, run,
}
use emb_linux.ThreadPool.Moves.{pop_back-none}

-- `k` turns of worker `w`, in which it gets every lock that it tries.
abbrev pub turns {ℓ} : {T : Type ℓ} → ℕ → ℕ → List (Turn T)
turns w zero = []
turns w (suc k) = works w true ∷ turns w k

-- Every index below `n` is one that worker `w` tries to steal from.
target_hits : (w j n : ℕ) → w < n → j < n → (i : ℕ) × (i < n) × (target w i n ≡ j)
target_hits w j n a b = elim (dec_lt w j) [
  | yes h ↦ (j - suc w, omega arith, omega (arith, mod_once (w + (j - suc w) + 1) n))
  | no h ↦ (j + n - suc w, omega arith, omega (arith, mod_once (w + (j + n - suc w) + 1) n))
]

module _ {ℓ} {T : Type ℓ} where
  -- Within `k` turns of its own the worker runs a task.
  abbrev FindsWithin : ℕ → ℕ → Pool T → Type ℓ
  FindsWithin k w p =
      (m : ℕ) × (m ≤ k) × (task : T) × ((run (turns w m) p).workers w ≡ running task)

  works-turn :
      (w : ℕ) (s : Worker T) (p : Pool T)
      → w < p.count
      → p.workers w ≡ s
      → turn (works w true) p ≡ work w s true p
  unfolding turn
  works-turn w s p a e =
      ap (λ b. if b then work w (p.workers w) true p else p) (lt→ltb w p.count a)
      ∙ ap (λ t. work w t true p) e

  -- One turn, and then the rest.
  first :
      (k w : ℕ) (s : Worker T) (p q : Pool T)
      → w < p.count
      → p.workers w ≡ s
      → work w s true p ≡ q
      → FindsWithin k w q
      → FindsWithin (suc k) w p
  unfolding run
  first k w s p q a e f (m, b, task, h) = (
    suc m,
    omega arith,
    task,
    ap (λ r. (run (turns w m) r).workers w) (works-turn w s p a e ∙ f) ∙ h,
  )

  runs : (k w : ℕ) (task : T) (p : Pool T) → p.workers w ≡ running task → FindsWithin k w p
  unfolding run
  runs k w task p e = (0, omega arith, task, e)

  steal_step :
      (i w : ℕ) (o : Option (List T × T)) (p : Pool T)
      → i < p.count
      → pop_back (p.local_queues (target w i p.count)) ≡ o
      → work w (stealing i) true p ≡ steal_from w i (target w i p.count) o p
  unfolding work
  steal_step i w o p a f =
      ap
        (λ b.
          if not b
          then set_worker w waiting p
          else steal_from w i (target w i p.count) (pop_back (p.local_queues (target w i p.count)))
              p)
        (lt→ltb i p.count a)
      ∙ ap (λ o. steal_from w i (target w i p.count) o p) f

  -- The last element of the queue that is tried is taken.
  steal_succeeds :
      (k i w : ℕ) (r : List T × T) (p : Pool T)
      → w < p.count
      → p.workers w ≡ stealing i
      → i < p.count
      → pop_back (p.local_queues (target w i p.count)) ≡ some r
      → FindsWithin (suc k) w p
  unfolding steal_from
  steal_succeeds k i w (rest, task) p a e b f =
      first k w (stealing i) p _ a e (steal_step i w (some (rest, task)) p b f)
        (runs k w task _ (update_self p.workers w (running task)))

  -- Stealing from the queues that are left, one of which is not empty.
  steals :
      (d i w : ℕ) (p : Pool T)
      → w < p.count
      → p.workers w ≡ stealing i
      → i + d < p.count
      → 0 < length (p.local_queues (target w (i + d) p.count))
      → FindsWithin (suc d) w p
  unfolding steal_from
  steals zero i w p a e b h = elim (Option-cases (pop_back (p.local_queues (target w i p.count)))) [
    | inl f ↦
        let g : i + 0 ≡ i = omega arith in
        let l = ap (λ j. length (p.local_queues (target w j p.count))) g in
        absurd (omega (arith, h, l, ap length (pop_back-none _ f)))
    | inr (r, f) ↦ steal_succeeds 0 i w r p a e (omega arith) f
  ]
  steals (suc d) i w p a e b h =
      elim (Option-cases (pop_back (p.local_queues (target w i p.count)))) [
        | inl f ↦
            first (suc d) w (stealing i) p (set_worker w (stealing (suc i)) p) a e
              (steal_step i w none p (omega arith) f)
              (steals d (suc i) w (set_worker w (stealing (suc i)) p) a
                (update_self p.workers w (stealing (suc i))) (omega arith)
                (subst (λ j. 0 < length (p.local_queues (target w j p.count))) (omega arith) h))
        | inr (r, f) ↦ steal_succeeds (suc d) i w r p a e (omega arith) f
      ]

  weaken : (k l w : ℕ) (p : Pool T) → k ≤ l → FindsWithin k w p → FindsWithin l w p
  weaken k l w p a (m, b, task, h) = (m, omega arith, task, h)

  steals_all :
      (j w : ℕ) (p : Pool T)
      → w < p.count
      → p.workers w ≡ stealing 0
      → j < p.count
      → 0 < length (p.local_queues j)
      → FindsWithin p.count w p
  steals_all j w p a e b h =
      let (i, c, g) = target_hits w j p.count a b in
      weaken (suc i) p.count w p (omega arith) (
        steals i 0 w p a e (omega arith) (
          subst (λ k. 0 < length (p.local_queues k))
            (sym g ∙ ap (λ k. target w k p.count) (omega arith)) h))

  abbrev pub queued_tasks : Pool T → ℕ
  queued_tasks p = length p.task_queue + sum (λ j. length (p.local_queues j)) p.count

  tries_global :
      (w : ℕ) (tasks : List T) (p : Pool T)
      → p.task_queue ≡ tasks
      → w < p.count
      → p.workers w ≡ trying_global
      → 0 < queued_tasks p
      → FindsWithin (suc p.count) w p
  unfolding work take_global
  tries_global w [] p f a e h =
      let (j, b, g) =
        sum_positive (λ j. length (p.local_queues j)) p.count (omega (arith, h, ap length f)) in
      first p.count w trying_global p (set_worker w (stealing 0) p) a e
        (ap (λ q. take_global w q p) f)
        (steals_all j w (set_worker w (stealing 0) p) a (update_self p.workers w (stealing 0)) b g)
  tries_global w (task ∷ rest) p f a e h =
      first p.count w trying_global p (take_global w (task ∷ rest) p) a e
        (ap (λ q. take_global w q p) f)
        (runs p.count w task _ (update_self p.workers w (running task)))

  tries_local :
      (w : ℕ) (tasks : List T) (p : Pool T)
      → p.local_queues w ≡ tasks
      → w < p.count
      → p.workers w ≡ trying_local
      → 0 < queued_tasks p
      → FindsWithin (suc (suc p.count)) w p
  unfolding work take_local
  tries_local w [] p f a e h =
      first (suc p.count) w trying_local p (set_worker w trying_global p) a e
        (ap (λ q. take_local w q p) f)
        (tries_global w p.task_queue (set_worker w trying_global p) refl a
          (update_self p.workers w trying_global) h)
  tries_local w (task ∷ rest) p f a e h =
      first (suc p.count) w trying_local p (take_local w (task ∷ rest) p) a e
        (ap (λ q. take_local w q p) f)
        (runs (suc p.count) w task _ (update_self p.workers w (running task)))

  -- A worker at the test of its stop token that has not been asked to stop runs a task after at most
  -- `count` + 3 turns of its own, when some queue holds a task, no other thread steps in between,
  -- and it gets the locks that it tries.
  pub worker_finds_task :
      (w : ℕ) (p : Pool T)
      → w < p.count
      → p.workers w ≡ testing
      → p.stop_requested w ≡ false
      → 0 < queued_tasks p
      → (m : ℕ) × (m ≤ p.count + 3) × (task : T) × ((run (turns w m) p).workers w ≡ running task)
  unfolding work
  worker_finds_task w p a e s h = weaken (suc (suc (suc p.count))) (p.count + 3) w p (omega arith) (
      first (suc (suc p.count)) w testing p (set_worker w trying_local p) a e
        (ap (λ b. set_worker w (if b then returned else trying_local) p) s)
        (tries_local w (p.local_queues w) (set_worker w trying_local p) refl a
          (update_self p.workers w trying_local) h))
