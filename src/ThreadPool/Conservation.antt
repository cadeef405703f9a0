-- ===== src/ThreadPool/Conservation.antt =====
-- Where the tasks that `execute` of thread_pool.cpp queued are: in a queue, in the hands of a worker, or
-- run.
use emb_linux.Prelude.{
  ℕ, suc, ◌+◌, ◌<◌, ◌≡◌, refl, sym, ap, ◌∙◌, List, [], ◌∷◌, ◌++◌, Bool, not, Option, none, some,
  ltb, ltb→lt, update, update_ne, update_self, if◌then◌else◌, arith, sum_zero, count, count-append,
  Bool-cases, inl, inr, subst, some_inj, none-ne_some,
}
use native.Mathlib.Nat.{mod-lt}
use emb_linux.ThreadPool.{
  at_least_one, new_pool, Pool, Worker, testing, trying_local, trying_global, stealing, running,
  waiting, checking, returned, is_empty, create, target, wakes, work, push_local, push_global,
  execute, Turn, executes, works, shuts_down, requests_stop, turn, run,
}
use emb_linux.ThreadPool.Moves.{
  set_worker-present, take_local-present, take_global-present, steal_from-present, finish-present,
  present-change, if-Kept, if-empty_handed, in_hand, queued, held, present, Kept,
}

-- A pool that `create` returns is new, and has a worker.
pub create-new {ℓ} :
    {T : Type ℓ} (system_limit thread_count : ℕ) (p : Pool T)
    → create system_limit thread_count ≡ some p
    → (0 < at_least_one thread_count) × (new_pool (at_least_one thread_count) ≡ p)
unfolding create
create-new system_limit thread_count p e =
    elim (Bool-cases (ltb system_limit (at_least_one thread_count))) [
      | inl h ↦ absurd (
          none-ne_some
            (sym (ap (λ b. if b then none else some (new_pool (at_least_one thread_count))) h) ∙ e))
      | inr h ↦ (
        ground arith,
        some_inj
            (sym (ap (λ b. if b then none else some (new_pool (at_least_one thread_count))) h) ∙ e),
      )
    ]

module _ {ℓ} {T : Type ℓ} (test : T → Bool) where
  -- The next step of a worker moves tasks and loses none.
  work-present :
      (w : ℕ) (s : Worker T) (b : Bool) (p : Pool T)
      → p.workers w ≡ s
      → w < p.count
      → Kept test p
      → Kept test (work w s b p)
  unfolding work
  work-present w testing b p e a v =
      set_worker-present test w _ p a (ap (in_hand test) e)
        (if-empty_handed test (p.stop_requested w) returned trying_local refl refl) v
  work-present w trying_local b p e a v =
      take_local-present test w _ p refl a (ap (in_hand test) e) v
  work-present w trying_global b p e a v =
      take_global-present test w _ p refl a (ap (in_hand test) e) v
  work-present w (stealing i) b p e a v =
      if-Kept test (not (ltb i p.count)) _ _
        (set_worker-present test w waiting p a (ap (in_hand test) e) refl v)
        (if-Kept test b _ _
          (steal_from-present test w i (target w i p.count) _ p refl
            (mod-lt (w + i + 1) {m = p.count} (omega arith)) a (ap (in_hand test) e) v)
          (set_worker-present test w (stealing (suc i)) p a (ap (in_hand test) e) refl v))
  work-present w (running x) b p e a v = finish-present test w x p e a v
  work-present w waiting b p e a v =
      if-Kept test (wakes w p) _ _
        (set_worker-present test w _ p a (ap (in_hand test) e)
          (if-empty_handed test p.is_shutdown (checking (is_empty p.task_queue) 0) testing refl
            refl)
          v)
        (if-Kept test (p.stop_requested w) _ _
          (set_worker-present test w testing p a (ap (in_hand test) e) refl v) v)
  work-present w (checking all i) b p e a v =
      if-Kept test (ltb i p.count) _ _
        (set_worker-present test w _ p a (ap (in_hand test) e)
          (if-empty_handed test (is_empty (p.local_queues i)) (checking all (suc i)) testing refl
            refl)
          v)
        (set_worker-present test w _ p a (ap (in_hand test) e)
          (if-empty_handed test all returned testing refl refl) v)
  work-present w returned b p e a v = v

  queue_local-present :
      (i : ℕ) (x : T) (p : Pool T)
      → i < p.count
      → Kept test p
      → Kept test (record p {
        local_queues = update p.local_queues i (p.local_queues i ++ (x ∷ []));
        accepted = p.accepted ++ (x ∷ []);
      })
  queue_local-present i x p a v =
      present-change test p _ i i a a refl
        (λ j h.
          ap (count test)
            (sym (update_ne p.local_queues i j (p.local_queues i ++ (x ∷ [])) (λ e. h (sym e)))))
        (λ j h. refl)
        (omega (
          arith,
          count-append test (p.local_queues i) (x ∷ []),
          count-append test p.accepted (x ∷ []),
          ap (count test) (update_self p.local_queues i (p.local_queues i ++ (x ∷ []))),
        ))
        v

  push_global-present : (x : T) (p : Pool T) → Kept test p → Kept test (push_global x p)
  unfolding push_global present
  push_global-present x p v = if-Kept test p.is_shutdown _ _ v (
      omega
        (arith, v, count-append test p.task_queue (x ∷ []), count-append test p.accepted (x ∷ [])))

  execute-present : (o : Option ℕ) (x : T) (p : Pool T) → Kept test p → Kept test (execute o x p)
  unfolding execute push_local
  execute-present none x p v = push_global-present x p v
  execute-present (some i) x p v = elim (Bool-cases (ltb i p.count)) [
    | inl h ↦
        subst (λ b. Kept test (if b then push_local i x p else push_global x p)) (sym h)
          (if-Kept test p.is_shutdown _ _ v (queue_local-present i x p (ltb→lt i p.count h) v))
    | inr h ↦
        subst (λ b. Kept test (if b then push_local i x p else push_global x p)) (sym h)
          (push_global-present x p v)
  ]

  turn-present : (t : Turn T) (p : Pool T) → Kept test p → Kept test (turn t p)
  unfolding turn present
  turn-present (executes o x) p v = execute-present o x p v
  turn-present (works w b) p v = elim (Bool-cases (ltb w p.count)) [
    | inl h ↦
        subst (λ c. Kept test (if c then work w (p.workers w) b p else p)) (sym h)
          (work-present w (p.workers w) b p refl (ltb→lt w p.count h) v)
    | inr h ↦ subst (λ c. Kept test (if c then work w (p.workers w) b p else p)) (sym h) v
  ]
  turn-present shuts_down p v = v
  turn-present (requests_stop w) p v = v

  run-Kept : (ts : List (Turn T)) (p : Pool T) → Kept test p → Kept test (run ts p)
  unfolding run
  run-Kept [] p v = v
  run-Kept (t ∷ ts) p v = run-Kept ts (turn t p) (turn-present t p v)

  new_pool-Kept : (n : ℕ) → Kept test (new_pool n)
  unfolding present
  new_pool-Kept n = omega (
    arith,
    sum_zero (queued test (new_pool n)) n (λ i a. refl),
    sum_zero (held test (new_pool n)) n (λ i a. refl),
  )

  -- In every schedule of a pool that `create` made, and for every test: of the tasks that pass it,
  -- as many have been accepted as are queued test, in the hands of a worker, or executed.
  pub run_conserves :
      (system_limit thread_count : ℕ) (ts : List (Turn T)) (p : Pool T)
      → create system_limit thread_count ≡ some p
      → count test (run ts p).accepted ≡ present test (run ts p)
  run_conserves system_limit thread_count ts p e = sym (
      run-Kept ts p (
        subst (Kept test) (create-new system_limit thread_count p e).1
          (new_pool-Kept (at_least_one thread_count))))
