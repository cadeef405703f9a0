-- ===== src/WorkStealingPool/Conservation.antt =====
-- The tasks of the work-stealing pool: queued, in hand, and executed.
use emb_linux.Prelude.{
  bit, ℕ, suc, ◌+◌, ◌≤◌, ◌<◌, ◌≡◌, ◌≢◌, refl, sym, ap, ◌∙◌, List, [], ◌∷◌, Bool, true, false,
  Option, none, some, update, update_ne, update_self, if◌then◌else◌, ltb, ltb→lt, arith, sum,
  sum_change, sum_zero, count, count-append,
}
use native.Mathlib.Nat.{mod-lt}
use emb_linux.ThreadPool.{pop_back}
use emb_linux.ThreadPool.Moves.{count-pop_back}
use emb_linux.WorkStealingPool.{
  SharedQueue, SharedQueueLaws, Phase, testing, trying_local, trying_pool, stealing, running,
  outside, returned, Pool, push_front, Turn, goes_on, submits, helps, stops, new_pool, set_phase,
  my_index, target, resting, try_local, try_shared, try_steal, advance, submit, help, turn, run,
}

module _ {ℓ} {T : Type ℓ} (q : SharedQueue T) (laws : SharedQueueLaws q) (workers threads : ℕ)
    (enough : workers ≤ threads) (test : T → Bool) where
  -- How many tasks that pass the test a thread holds.
  abbrev pub in_hand : Phase T → ℕ
  in_hand (running task) = bit (test task)
  in_hand _ = 0

  abbrev pub queued : Pool T q.Queue → ℕ → ℕ
  queued s i = count test (s.queues i)

  abbrev pub held : Pool T q.Queue → ℕ → ℕ
  held s t = in_hand (s.phases t)

  -- The tasks that pass the test and are in a queue, in hand, or done.
  abbrev pub present : Pool T q.Queue → ℕ
  present s =
      count test (q.tasks s.pool_work_queue)
      + sum (queued s) workers
      + sum (held s) threads
      + count test s.executed

  abbrev Kept : Pool T q.Queue → Type 0
  Kept s = present s ≡ count test s.submitted

  if-Kept :
      (b : Bool) (x y : Pool T q.Queue)
      → (b ≡ true → Kept x)
      → (b ≡ false → Kept y)
      → Kept (if b then x else y)
  if-Kept true x y f g = f refl
  if-Kept false x y f g = g refl

  -- A step of thread `t` to phase `p` that changes at most the deque `i` besides.
  moved :
      (i t : ℕ) (p : Phase T) (s s' : Pool T q.Queue)
      → i < workers
      → t < threads
      → s'.phases ≡ update s.phases t p
      → ((j : ℕ) → j ≢ i → s'.queues j ≡ s.queues j)
      → count test (q.tasks s.pool_work_queue)
          + queued s i
          + held s t
          + count test s.executed
          + count test s'.submitted
        ≡ count test (q.tasks s'.pool_work_queue)
          + queued s' i
          + in_hand p
          + count test s'.executed
          + count test s.submitted
      → Kept s
      → Kept s'
  moved i t p s s' a b phases queues e v = omega (
    arith,
    v,
    e,
    sum_change (queued s) (queued s') i workers a (λ j ne. ap (count test) (sym (queues j ne))),
    sum_change (held s) (held s') t threads b (λ j ne.
        ap in_hand (sym (ap (λ f. f j) phases ∙ update_ne s.phases t j p (λ k. ne (sym k))))),
    ap in_hand (ap (λ f. f t) phases ∙ update_self s.phases t p),
  )

  -- A step that changes no deque.
  moved_apart :
      (t : ℕ) (p : Phase T) (s s' : Pool T q.Queue)
      → t < threads
      → s'.phases ≡ update s.phases t p
      → s'.queues ≡ s.queues
      → count test (q.tasks s.pool_work_queue)
          + held s t
          + count test s.executed
          + count test s'.submitted
        ≡ count test (q.tasks s'.pool_work_queue)
          + in_hand p
          + count test s'.executed
          + count test s.submitted
      → Kept s
      → Kept s'
  moved_apart t p s s' b phases queues e v = omega (
    arith,
    v,
    e,
    ap (λ f. sum (λ i. count test (f i)) workers) queues,
    sum_change (held s) (held s') t threads b (λ j ne.
        ap in_hand (sym (ap (λ f. f j) phases ∙ update_ne s.phases t j p (λ k. ne (sym k))))),
    ap in_hand (ap (λ f. f t) phases ∙ update_self s.phases t p),
  )

  -- A change of phase between two that hold nothing.
  empty_handed :
      (t : ℕ) (p : Phase T) (s : Pool T q.Queue)
      → t < threads
      → held s t ≡ 0
      → in_hand p ≡ 0
      → Kept s
      → Kept (set_phase q workers t p s)
  empty_handed t p s a b c =
      moved_apart t p s (set_phase q workers t p s) a refl refl (omega (arith, b, c))

  resting-empty :
      (b : Bool) (x y : Phase T) → in_hand x ≡ 0 → in_hand y ≡ 0 → in_hand (if b then x else y) ≡ 0
  resting-empty true x y e f = e
  resting-empty false x y e f = f

  try_local-Kept :
      (t : ℕ) (tasks : List T) (s : Pool T q.Queue)
      → s.queues t ≡ tasks
      → t < workers
      → held s t ≡ 0
      → Kept s
      → Kept (try_local q workers t tasks s)
  unfolding try_local
  try_local-Kept t [] s e a b v = empty_handed t trying_pool s (omega (arith, a, enough)) b refl v
  try_local-Kept t (x ∷ rest) s e a b v =
      moved t t (running x) s (try_local q workers t (x ∷ rest) s) a (omega (arith, a, enough)) refl
        (λ j ne. update_ne s.queues t j rest (λ k. ne (sym k)))
        (omega (arith, b, ap (count test) e, ap (count test) (update_self s.queues t rest))) v

  try_shared-Kept :
      (t : ℕ) (o : Option (T × q.Queue)) (s : Pool T q.Queue)
      → q.try_pop s.pool_work_queue ≡ o
      → t < threads
      → held s t ≡ 0
      → Kept s
      → Kept (try_shared q workers t o s)
  unfolding try_shared
  try_shared-Kept t none s e a b v = empty_handed t (stealing 0) s a b refl v
  try_shared-Kept t (some (x, rest)) s e a b v =
      moved_apart t (running x) s (try_shared q workers t (some (x, rest)) s) a refl refl
        (omega (arith, b, ap (count test) (laws.try_pop-some s.pool_work_queue x rest e))) v

  try_steal-Kept :
      (t i victim : ℕ) (o : Option (List T × T)) (s : Pool T q.Queue)
      → pop_back (s.queues victim) ≡ o
      → victim < workers
      → t < threads
      → held s t ≡ 0
      → Kept s
      → Kept (try_steal q workers t i victim o s)
  unfolding try_steal
  try_steal-Kept t i victim none s e c a b v = empty_handed t (stealing (suc i)) s a b refl v
  try_steal-Kept t i victim (some (rest, x)) s e c a b v =
      moved victim t (running x) s (try_steal q workers t i victim (some (rest, x)) s) c a refl
        (λ j ne. update_ne s.queues victim j rest (λ k. ne (sym k)))
        (omega (
          arith,
          b,
          count-pop_back test (s.queues victim) (rest, x) e,
          ap (count test) (update_self s.queues victim rest),
        ))
        v

  advance-Kept :
      (t : ℕ) (p : Phase T) (s : Pool T q.Queue)
      → s.phases t ≡ p
      → t < threads
      → Kept s
      → Kept (advance q workers t p s)
  unfolding advance
  advance-Kept t testing s e a v =
      empty_handed t (if s.done then returned else trying_local) s a (ap in_hand e)
        (resting-empty s.done returned trying_local refl refl) v
  advance-Kept t trying_local s e a v =
      if-Kept (ltb t workers) _ _
        (λ h. try_local-Kept t (s.queues t) s refl (ltb→lt t workers h) (ap in_hand e) v)
        (λ h. empty_handed t trying_pool s a (ap in_hand e) refl v)
  advance-Kept t trying_pool s e a v =
      try_shared-Kept t (q.try_pop s.pool_work_queue) s refl a (ap in_hand e) v
  advance-Kept t (stealing i) s e a v =
      if-Kept (ltb i workers) _ _
        (λ h.
          try_steal-Kept t i (target q workers t i) (pop_back (s.queues (target q workers t i))) s
            refl
            (mod-lt (my_index q workers t + i + 1) {m = workers}
              (omega (arith, ltb→lt i workers h)))
            a (ap in_hand e) v)
        (λ h.
          empty_handed t (resting q workers t) s a (ap in_hand e)
            (resting-empty (ltb t workers) testing outside refl refl) v)
  advance-Kept t (running x) s e a v =
      moved_apart t (resting q workers t) s (advance q workers t (running x) s) a refl refl
        (omega (
          arith,
          ap in_hand e,
          resting-empty (ltb t workers) testing outside refl refl,
          count-append test s.executed (x ∷ []),
        ))
        v
  advance-Kept t outside s e a v = v
  advance-Kept t returned s e a v = v

  -- A task is put into one of the queues.
  submit-Kept : (t : ℕ) (x : T) (s : Pool T q.Queue) → Kept s → Kept (submit q workers t x s)
  unfolding submit
  submit-Kept t x s v =
      if-Kept (ltb t workers) _ _
        (λ h. omega (
          arith,
          v,
          sum_change (queued s) (λ i. count test (update s.queues t (push_front x (s.queues t)) i))
              t workers (ltb→lt t workers h)
              (λ j ne.
                ap (count test)
                  (sym (update_ne s.queues t j (push_front x (s.queues t)) (λ k. ne (sym k))))),
          ap (count test) (update_self s.queues t (push_front x (s.queues t))),
          count-append test s.submitted (x ∷ []),
        ))
        (λ h. omega (
          arith,
          v,
          ap (count test) (laws.tasks-push x s.pool_work_queue),
          count-append test (q.tasks s.pool_work_queue) (x ∷ []),
          count-append test s.submitted (x ∷ []),
        ))

  help-Kept :
      (t : ℕ) (p : Phase T) (s : Pool T q.Queue)
      → s.phases t ≡ p
      → t < threads
      → Kept s
      → Kept (help q workers t p s)
  help-Kept t outside s e a v = empty_handed t trying_local s a (ap in_hand e) refl v
  help-Kept t testing s e a v = v
  help-Kept t trying_local s e a v = v
  help-Kept t trying_pool s e a v = v
  help-Kept t (stealing i) s e a v = v
  help-Kept t (running x) s e a v = v
  help-Kept t returned s e a v = v

  turn-Kept : (u : Turn T) (s : Pool T q.Queue) → Kept s → Kept (turn q workers threads u s)
  unfolding turn
  turn-Kept (goes_on t) s v =
      if-Kept (ltb t threads) _ _ (λ h. advance-Kept t (s.phases t) s refl (ltb→lt t threads h) v)
        (λ h. v)
  turn-Kept (submits t x) s v = if-Kept (ltb t threads) _ _ (λ h. submit-Kept t x s v) (λ h. v)
  turn-Kept (helps t) s v =
      if-Kept (ltb t threads) _ _ (λ h. help-Kept t (s.phases t) s refl (ltb→lt t threads h) v)
        (λ h. v)
  turn-Kept stops s v = v

  run-Kept : (us : List (Turn T)) (s : Pool T q.Queue) → Kept s → Kept (run q workers threads us s)
  unfolding run
  run-Kept [] s v = v
  run-Kept (u ∷ us) s v = run-Kept us (turn q workers threads u s) (turn-Kept u s v)

  new_pool-Kept : Kept (new_pool q workers)
  new_pool-Kept = omega (
    arith,
    ap (count test) laws.tasks-empty,
    sum_zero (queued (new_pool q workers)) workers (λ i a. refl),
    sum_zero (held (new_pool q workers)) threads
        (λ t a. resting-empty (ltb t workers) testing outside refl refl),
  )

  -- For a shared queue that keeps its laws, every number of workers and of other threads, every schedule
  -- and every test: of the tasks that pass it, as many have been submitted as are in the queues, in the
  -- hands of a thread, or executed. So no task is lost or run twice.
  pub run-conserves :
      (us : List (Turn T))
      → count test (run q workers threads us (new_pool q workers)).submitted
        ≡ present (run q workers threads us (new_pool q workers))
  run-conserves us = sym (run-Kept us (new_pool q workers) new_pool-Kept)
