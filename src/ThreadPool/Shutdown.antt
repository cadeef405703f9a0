-- ===== src/ThreadPool/Shutdown.antt =====
-- What the destructor of thread_pool.cpp leaves in the queues.
use emb_linux.Prelude.{
  ap₂, ℕ, suc, ◌+◌, ◌<◌, ◌≤◌, ◌≡◌, ◌≢◌, refl, sym, ap, ◌∙◌, List, [], ◌∷◌, Bool, true, false, not,
  Option, none, some, ltb, ltb→lt, update, update_ne, update_self, if◌then◌else◌, arith, sum,
  sum_change, Bool-cases, inl, inr, subst, length, length-append,
}
use emb_linux.ThreadPool.{
  Pool, Worker, testing, trying_local, trying_global, stealing, running, waiting, checking,
  returned, is_empty, set_worker, take_local, take_global, target, steal_from, wakes, work,
  push_local, push_global, execute, Turn, executes, works, shuts_down, requests_stop, turn, run,
}

-- A worker that is past the test of its stop token and may still run a task.
abbrev pub is_busy {ℓ} : {T : Type ℓ} → Worker T → ℕ
is_busy trying_local = 1
is_busy trying_global = 1
is_busy (stealing i) = 1
is_busy (running task) = 1
is_busy _ = 0

module _ {ℓ} {T : Type ℓ} where
  abbrev pub busy : Pool T → ℕ → ℕ
  busy p w = is_busy (p.workers w)

  -- The tasks that have run, and those that may still run when every worker has been asked to stop.
  abbrev pub at_most : Pool T → ℕ
  at_most p = length p.executed + sum (busy p) p.count

  abbrev pub AllStopped : Pool T → Type 0
  AllStopped p = (w : ℕ) → w < p.count → p.stop_requested w ≡ true

  -- What is kept from `p` to `q`.
  record Shrinks (p q : Pool T) : Type 0 where
    pub bound : at_most q ≤ at_most p
    pub same_count : q.count ≡ p.count
    pub stopped : AllStopped q

  -- A worker steps, and what it may still run does not grow.
  one_worker :
      (p q : Pool T) (w : ℕ)
      → w < p.count
      → q.count ≡ p.count
      → AllStopped q
      → ((j : ℕ) → j ≢ w → busy p j ≡ busy q j)
      → length q.executed + busy q w ≤ length p.executed + busy p w
      → Shrinks p q
  one_worker p q w a c s h e = record {
    bound = omega (arith, ap (sum (busy q)) c, sum_change (busy p) (busy q) w p.count a h, e);
    same_count = c;
    stopped = s;
  }

  -- The worker goes on to another phase, and may take a task from a queue as it does so.
  moves-Shrinks :
      (w : ℕ) (s : Worker T) (p q : Pool T)
      → w < p.count
      → AllStopped p
      → is_busy s ≤ busy p w
      → q.workers ≡ update p.workers w s
      → q.executed ≡ p.executed
      → q.count ≡ p.count
      → q.stop_requested ≡ p.stop_requested
      → Shrinks p q
  moves-Shrinks w s p q a z e f g c r =
      let at : (j : ℕ) → busy q j ≡ is_busy (update p.workers w s j) =
        λ j. ap (λ k. is_busy (k j)) f in
      one_worker p q w a c (λ j h. ap (λ k. k j) r ∙ z j (omega (arith, c, h)))
        (λ j h. sym (at j ∙ ap is_busy (update_ne p.workers w j s (λ e. h (sym e)))))
        (omega (arith, e, at w, ap is_busy (update_self p.workers w s), ap length g))

  set_worker-Shrinks :
      (w : ℕ) (s : Worker T) (p : Pool T)
      → w < p.count
      → AllStopped p
      → is_busy s ≤ busy p w
      → Shrinks p (set_worker w s p)
  set_worker-Shrinks w s p a z e = moves-Shrinks w s p (set_worker w s p) a z e refl refl refl refl

  if-Shrinks :
      (b : Bool) (p q r : Pool T) → Shrinks p q → Shrinks p r → Shrinks p (if b then q else r)
  if-Shrinks true p q r v w = v
  if-Shrinks false p q r v w = w

  if-idle :
      (b : Bool) (s t : Worker T) → is_busy s ≡ 0 → is_busy t ≡ 0 → is_busy (if b then s else t) ≡ 0
  if-idle true s t v w = v
  if-idle false s t v w = w

  stays-Shrinks : (p : Pool T) → AllStopped p → Shrinks p p
  stays-Shrinks p z = record { bound = omega arith; same_count = refl; stopped = z }

  take_local-Shrinks :
      (w : ℕ) (tasks : List T) (p : Pool T)
      → w < p.count
      → AllStopped p
      → busy p w ≡ 1
      → Shrinks p (take_local w tasks p)
  unfolding take_local
  take_local-Shrinks w [] p a z e = set_worker-Shrinks w trying_global p a z (omega (arith, e))
  take_local-Shrinks w (x ∷ rest) p a z e =
      moves-Shrinks w (running x) p _ a z (omega (arith, e)) refl refl refl refl

  take_global-Shrinks :
      (w : ℕ) (tasks : List T) (p : Pool T)
      → w < p.count
      → AllStopped p
      → busy p w ≡ 1
      → Shrinks p (take_global w tasks p)
  unfolding take_global
  take_global-Shrinks w [] p a z e = set_worker-Shrinks w (stealing 0) p a z (omega (arith, e))
  take_global-Shrinks w (x ∷ rest) p a z e =
      moves-Shrinks w (running x) p _ a z (omega (arith, e)) refl refl refl refl

  steal_from-Shrinks :
      (w i victim : ℕ) (o : Option (List T × T)) (p : Pool T)
      → w < p.count
      → AllStopped p
      → busy p w ≡ 1
      → Shrinks p (steal_from w i victim o p)
  unfolding steal_from
  steal_from-Shrinks w i victim none p a z e =
      set_worker-Shrinks w (stealing (suc i)) p a z (omega (arith, e))
  steal_from-Shrinks w i victim (some (rest, x)) p a z e =
      moves-Shrinks w (running x) p _ a z (omega (arith, e)) refl refl refl refl

  finish-Shrinks :
      (w : ℕ) (x : T) (p : Pool T)
      → w < p.count
      → AllStopped p
      → busy p w ≡ 1
      → Shrinks p (work w (running x) true p)
  unfolding work
  finish-Shrinks w x p a z e =
      one_worker p _ w a refl z
        (λ j h. ap is_busy (sym (update_ne p.workers w j testing (λ e. h (sym e)))))
        (omega (
          arith,
          e,
          ap is_busy (update_self p.workers w testing),
          length-append p.executed (x ∷ []),
        ))

  work-Shrinks :
      (w : ℕ) (s : Worker T) (b : Bool) (p : Pool T)
      → p.workers w ≡ s
      → w < p.count
      → AllStopped p
      → Shrinks p (work w s b p)
  unfolding work
  work-Shrinks w testing b p e a z =
      subst (λ c. Shrinks p (set_worker w (if c then returned else trying_local) p)) (sym (z w a))
        (set_worker-Shrinks w returned p a z (omega arith))
  work-Shrinks w trying_local b p e a z = take_local-Shrinks w _ p a z (ap is_busy e)
  work-Shrinks w trying_global b p e a z = take_global-Shrinks w _ p a z (ap is_busy e)
  work-Shrinks w (stealing i) b p e a z =
      if-Shrinks (not (ltb i p.count)) p _ _ (set_worker-Shrinks w waiting p a z (omega arith)) (
        if-Shrinks b p _ _ (steal_from-Shrinks w i (target w i p.count) _ p a z (ap is_busy e))
          (set_worker-Shrinks w (stealing (suc i)) p a z (omega (arith, ap is_busy e))))
  work-Shrinks w (running x) b p e a z = finish-Shrinks w x p a z (ap is_busy e)
  work-Shrinks w waiting b p e a z =
      if-Shrinks (wakes w p) p _ _
        (set_worker-Shrinks w _ p a z (
          omega
            (arith, if-idle p.is_shutdown (checking (is_empty p.task_queue) 0) testing refl refl)))
        (if-Shrinks (p.stop_requested w) p _ _ (set_worker-Shrinks w testing p a z (omega arith))
          (stays-Shrinks p z))
  work-Shrinks w (checking all i) b p e a z =
      if-Shrinks (ltb i p.count) p _ _
        (set_worker-Shrinks w _ p a z (
          omega (
            arith,
            if-idle (is_empty (p.local_queues i)) (checking all (suc i)) testing refl refl,
          )))
        (set_worker-Shrinks w _ p a z (omega (arith, if-idle all returned testing refl refl)))
  work-Shrinks w returned b p e a z = stays-Shrinks p z

  queues-Shrinks :
      (p q : Pool T)
      → AllStopped p
      → q.workers ≡ p.workers
      → q.executed ≡ p.executed
      → q.count ≡ p.count
      → q.stop_requested ≡ p.stop_requested
      → Shrinks p q
  queues-Shrinks p q z f g c r = record {
    bound = omega (arith, ap length g, ap₂ (λ k n. sum (λ j. is_busy (k j)) n) f c);
    same_count = c;
    stopped = λ j h. ap (λ k. k j) r ∙ z j (omega (arith, c, h));
  }

  execute-Shrinks : (o : Option ℕ) (x : T) (p : Pool T) → AllStopped p → Shrinks p (execute o x p)
  unfolding execute push_local push_global
  execute-Shrinks none x p z =
      if-Shrinks p.is_shutdown p _ _ (stays-Shrinks p z) (queues-Shrinks p _ z refl refl refl refl)
  execute-Shrinks (some i) x p z =
      if-Shrinks (ltb i p.count) p _ _
        (if-Shrinks p.is_shutdown p _ _ (stays-Shrinks p z)
          (queues-Shrinks p _ z refl refl refl refl))
        (if-Shrinks p.is_shutdown p _ _ (stays-Shrinks p z)
          (queues-Shrinks p _ z refl refl refl refl))

  turn-Shrinks : (t : Turn T) (p : Pool T) → AllStopped p → Shrinks p (turn t p)
  unfolding turn
  turn-Shrinks (executes o x) p z = execute-Shrinks o x p z
  turn-Shrinks (works w b) p z = elim (Bool-cases (ltb w p.count)) [
    | inl h ↦
        subst (λ c. Shrinks p (if c then work w (p.workers w) b p else p)) (sym h)
          (work-Shrinks w (p.workers w) b p refl (ltb→lt w p.count h) z)
    | inr h ↦
        subst (λ c. Shrinks p (if c then work w (p.workers w) b p else p)) (sym h)
          (stays-Shrinks p z)
  ]
  turn-Shrinks shuts_down p z = queues-Shrinks p _ z refl refl refl refl
  turn-Shrinks (requests_stop w) p z = record {
    bound = omega arith;
    same_count = refl;
    stopped = λ j h. let e = z j h in ground arith;
  }

  -- Once every worker has been asked to stop, the tasks that will ever have run are at most those
  -- that have, and one for each worker that is past the test of its stop token, whatever the queues
  -- hold and whatever the schedule is.
  pub stopped_pool_drops :
      (ts : List (Turn T)) (p : Pool T)
      → ((w : ℕ) → w < p.count → p.stop_requested w ≡ true)
      → length (run ts p).executed ≤ length p.executed + sum (busy p) p.count
  unfolding run
  stopped_pool_drops [] p z = omega arith
  stopped_pool_drops (t ∷ ts) p z =
      let r = turn-Shrinks t p z in
      omega (arith, stopped_pool_drops ts (turn t p) r.stopped, r.bound)
