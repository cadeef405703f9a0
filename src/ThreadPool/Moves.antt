-- ===== src/ThreadPool/Moves.antt =====
-- Each way in which thread_pool.cpp moves a task, and the number of tasks.
use emb_linux.Prelude.{
  bit, ℕ, suc, ◌+◌, ◌<◌, ◌≡◌, ◌≢◌, refl, sym, ap, ◌∙◌, List, [], ◌∷◌, Bool, true, false, Option,
  none, some, update_ne, update_self, if◌then◌else◌, arith, sum, sum_change, count, count-append,
  Option-cases, inl, inr, some_inj, none-ne_some,
}
use emb_linux.ThreadPool.{
  behind, Pool, Worker, testing, trying_global, stealing, running, pop_back, set_worker, take_local,
  take_global, steal_from, work,
}

pub pop_back-none {ℓ} : {T : Type ℓ} (xs : List T) → pop_back xs ≡ none → xs ≡ []
unfolding pop_back
pop_back-none [] e = refl
pop_back-none (x ∷ xs) e = elim (Option-cases (pop_back xs)) [
  | inl f ↦ absurd (none-ne_some (sym e ∙ ap (behind x) f))
  | inr (r, f) ↦ absurd (none-ne_some (sym e ∙ ap (behind x) f))
]

module _ {ℓ} {T : Type ℓ} (test : T → Bool) where
  -- How many tasks that pass the test a worker holds.
  abbrev pub in_hand : Worker T → ℕ
  in_hand (running task) = bit (test task)
  in_hand _ = 0

  abbrev pub queued : Pool T → ℕ → ℕ
  queued p i = count test (p.local_queues i)

  abbrev pub held : Pool T → ℕ → ℕ
  held p w = in_hand (p.workers w)

  -- The tasks that pass the test and are in the queues, in hand, or done.
  unfoldable pub present : Pool T → ℕ
  present p =
      count test p.task_queue
      + sum (queued p) p.count
      + sum (held p) p.count
      + count test p.executed

  abbrev pub Kept : Pool T → Type 0
  Kept p = present p ≡ count test p.accepted

  pub if-Kept : (b : Bool) (p q : Pool T) → Kept p → Kept q → Kept (if b then p else q)
  if-Kept true p q v w = v
  if-Kept false p q v w = w

  pub if-empty_handed :
      (b : Bool) (s t : Worker T) → in_hand s ≡ 0 → in_hand t ≡ 0 → in_hand (if b then s else t) ≡ 0
  if-empty_handed true s t v w = v
  if-empty_handed false s t v w = w

  -- The list without its last element and that element have the list's elements.
  pub count-pop_back :
      (xs : List T) (r : List T × T)
      → pop_back xs ≡ some r
      → count test xs ≡ count test r.0 + bit (test r.1)
  unfolding pop_back
  count-pop_back [] r e = absurd (none-ne_some e)
  count-pop_back (x ∷ xs) r e =
      let total : List T × T → ℕ = λ q. count test q.0 + bit (test q.1) in
      elim (Option-cases (pop_back xs)) [
        | inl f ↦
            let g = ap total (some_inj (sym (ap (behind x) f) ∙ e)) in
            omega (arith, g, ap (count test) (pop_back-none xs f))
        | inr (q, f) ↦
            let g = ap total (some_inj (sym (ap (behind x) f) ∙ e)) in
            omega (arith, g, count-pop_back xs q f)
      ]

  -- A step that changes one queue, one worker, and the rest of the pool by as much.
  pub present-change :
      (p q : Pool T) (i w : ℕ)
      → i < p.count
      → w < p.count
      → q.count ≡ p.count
      → ((j : ℕ) → j ≢ i → queued p j ≡ queued q j)
      → ((j : ℕ) → j ≢ w → held p j ≡ held q j)
      → count test p.task_queue
          + queued p i
          + held p w
          + count test p.executed
          + count test q.accepted
        ≡ count test q.task_queue
          + queued q i
          + held q w
          + count test q.executed
          + count test p.accepted
      → Kept p
      → Kept q
  unfolding present
  present-change p q i w a b c h k e v =
      let m : sum (queued q) q.count ≡ sum (queued q) p.count = ap (sum (queued q)) c in
      let n : sum (held q) q.count ≡ sum (held q) p.count = ap (sum (held q)) c in
      omega (
        arith,
        sum_change (queued p) (queued q) i p.count a h,
        sum_change (held p) (held q) w p.count b k,
        e,
        v,
        m,
        n,
      )

  -- The phase of a worker changes from one that holds nothing to another.
  pub set_worker-present :
      (w : ℕ) (s : Worker T) (p : Pool T)
      → w < p.count
      → in_hand (p.workers w) ≡ 0
      → in_hand s ≡ 0
      → Kept p
      → Kept (set_worker w s p)
  set_worker-present w s p a b c =
      present-change p (set_worker w s p) w w a a refl (λ j h. refl)
        (λ j h. ap in_hand (sym (update_ne p.workers w j s (λ e. h (sym e)))))
        (omega (arith, b, c, ap in_hand (update_self p.workers w s)))

  pub take_local-present :
      (w : ℕ) (tasks : List T) (p : Pool T)
      → p.local_queues w ≡ tasks
      → w < p.count
      → in_hand (p.workers w) ≡ 0
      → Kept p
      → Kept (take_local w tasks p)
  unfolding take_local
  take_local-present w [] p e a b v = set_worker-present w trying_global p a b refl v
  take_local-present w (x ∷ rest) p e a b v =
      present-change p (take_local w (x ∷ rest) p) w w a a refl
        (λ j h. ap (count test) (sym (update_ne p.local_queues w j rest (λ e. h (sym e)))))
        (λ j h. ap in_hand (sym (update_ne p.workers w j (running x) (λ e. h (sym e)))))
        (omega (
          arith,
          b,
          ap (count test) e,
          ap (count test) (update_self p.local_queues w rest),
          ap in_hand (update_self p.workers w (running x)),
        ))
        v

  pub take_global-present :
      (w : ℕ) (tasks : List T) (p : Pool T)
      → p.task_queue ≡ tasks
      → w < p.count
      → in_hand (p.workers w) ≡ 0
      → Kept p
      → Kept (take_global w tasks p)
  unfolding take_global
  take_global-present w [] p e a b v = set_worker-present w (stealing 0) p a b refl v
  take_global-present w (x ∷ rest) p e a b v =
      present-change p (take_global w (x ∷ rest) p) w w a a refl (λ j h. refl)
        (λ j h. ap in_hand (sym (update_ne p.workers w j (running x) (λ e. h (sym e)))))
        (omega (arith, b, ap (count test) e, ap in_hand (update_self p.workers w (running x)))) v

  pub steal_from-present :
      (w i victim : ℕ) (o : Option (List T × T)) (p : Pool T)
      → pop_back (p.local_queues victim) ≡ o
      → victim < p.count
      → w < p.count
      → in_hand (p.workers w) ≡ 0
      → Kept p
      → Kept (steal_from w i victim o p)
  unfolding steal_from
  steal_from-present w i victim none p e c a b v =
      set_worker-present w (stealing (suc i)) p a b refl v
  steal_from-present w i victim (some (rest, x)) p e c a b v =
      present-change p (steal_from w i victim (some (rest, x)) p) victim w c a refl
        (λ j h. ap (count test) (sym (update_ne p.local_queues victim j rest (λ e. h (sym e)))))
        (λ j h. ap in_hand (sym (update_ne p.workers w j (running x) (λ e. h (sym e)))))
        (omega (
          arith,
          b,
          count-pop_back (p.local_queues victim) (rest, x) e,
          ap (count test) (update_self p.local_queues victim rest),
          ap in_hand (update_self p.workers w (running x)),
        ))
        v

  pub finish-present :
      (w : ℕ) (x : T) (p : Pool T)
      → p.workers w ≡ running x
      → w < p.count
      → Kept p
      → Kept (work w (running x) true p)
  unfolding work
  finish-present w x p e a v =
      present-change p (work w (running x) true p) w w a a refl (λ j h. refl)
        (λ j h. ap in_hand (sym (update_ne p.workers w j testing (λ e. h (sym e)))))
        (omega (
          arith,
          ap in_hand e,
          ap in_hand (update_self p.workers w testing),
          count-append test p.executed (x ∷ []),
        ))
        v
