-- ===== src/SingleMutexQueue/Wakeups.antt =====
-- What waits, what was woken and what is queued in the queue with a condition variable.
use native.Mathlib.Decide.{dec_lt}
use emb_linux.Prelude.{
  subst, lt→ltb, append_assoc, ℕ, zero, suc, ◌≤◌, ◌<◌, ◌≡◌, ◌≢◌, refl, sym, ap, ◌∙◌, List, [], ◌∷◌,
  ◌++◌, Bool, true, false, length, length-append, update_ne, update_self, if◌then◌else◌, ltb,
  ltb→lt, arith, sum_zero, Bool-cases, inl, inr, ◌⊎◌,
}
use emb_linux.SingleMutexQueue.{
  Phase, outside, waiting, awake, System, new, Turn, pushes, calls, resumes, wakes_spuriously,
  tries, push, wait_and_pop, try_pop, call, resume, wake_spuriously, turn, run, resume_all,
}
use emb_linux.SingleMutexQueue.Notify.{
  waits, woken, all_waiting, all_woken, sum-update, Notified, wakes_one, none_waits,
  notify_one-Notified,
}

no_values {ℓ} : {T : Type ℓ} (xs : List T) → length xs ≡ 0 → xs ≡ []
no_values [] e = refl
no_values (x ∷ xs) e = absurd (omega arith)

module _ {ℓ} {T : Type ℓ} (threads : ℕ) where
  -- The values in order, and as many woken threads as queued values if any thread waits.
  record Ready (s : System T) : Type ℓ where
    fifo : s.pushed ≡ s.received ++ s.data_queue
    enough : (length s.data_queue ≤ all_woken threads s.phases) ⊎ (all_waiting threads s.phases ≡ 0)

  push-Ready : (w : ℕ) (x : T) (s : System T) → Ready s → Ready (push threads w x s)
  unfolding push
  push-Ready w x s v = record {
    fifo = ap (◌++ (x ∷ [])) v.fifo ∙ append_assoc s.received s.data_queue (x ∷ []);
    enough = still (notify_one-Notified threads w s.phases) v.enough;
  }
    where
      still :
          {g : ℕ → Phase}
          → Notified threads threads s.phases g
          → (length s.data_queue ≤ all_woken threads s.phases) ⊎ (all_waiting threads s.phases ≡ 0)
          → (length (s.data_queue ++ (x ∷ [])) ≤ all_woken threads g) ⊎ (all_waiting threads g ≡ 0)
      still (wakes_one some_wait e) (inl h) =
          inl (omega (arith, length-append s.data_queue (x ∷ []), e, h))
      still (wakes_one some_wait e) (inr h) = absurd (omega (arith, some_wait, h))
      still (none_waits h e) o =
          inr (ap (all_waiting threads) e ∙ sum_zero (λ t. waits (s.phases t)) threads h)

  if-Ready :
      (b : Bool) (x y : System T) → (b ≡ true → Ready x) → Ready y → Ready (if b then x else y)
  if-Ready true x y f v = f refl
  if-Ready false x y f v = v

  -- A test of the queue by a thread that has been notified, has called, or wakes by itself.
  wait_and_pop-Ready :
      (t : ℕ) (xs : List T) (s : System T)
      → t < threads
      → s.data_queue ≡ xs
      → Ready s
      → Ready (wait_and_pop threads t xs s)
  unfolding wait_and_pop
  wait_and_pop-Ready t [] s a e v = record {
    fifo = v.fifo;
    enough = inl (omega (arith, ap length e));
  }
  wait_and_pop-Ready t (x ∷ xs) s a e v = record {
    fifo = v.fifo ∙ ap (s.received ++◌) e ∙ sym (append_assoc s.received (x ∷ []) xs);
    enough = elim v.enough [
      | inl h ↦ inl (
          omega (
            arith,
            h,
            ap length e,
            sum-update woken s.phases t outside threads a,
            woken_le (s.phases t),
          ))
      | inr h ↦ inr (omega (arith, h, sum-update waits s.phases t outside threads a))
    ];
  }
    where
      woken_le : (p : Phase) → woken p ≤ 1
      woken_le outside = omega arith
      woken_le waiting = omega arith
      woken_le awake = omega arith

  try_pop-Ready :
      (xs : List T) (s : System T) → s.data_queue ≡ xs → Ready s → Ready (try_pop threads xs s)
  try_pop-Ready [] s e v = v
  try_pop-Ready (x ∷ xs) s e v = record {
    fifo = v.fifo ∙ ap (s.received ++◌) e ∙ sym (append_assoc s.received (x ∷ []) xs);
    enough = elim v.enough [ inl h ↦ inl (omega (arith, h, ap length e)) | inr h ↦ inr h ];
  }

  call-Ready :
      (t : ℕ) (p : Phase) (s : System T) → t < threads → Ready s → Ready (call threads t p s)
  call-Ready t outside s a v = wait_and_pop-Ready t s.data_queue s a refl v
  call-Ready t waiting s a v = v
  call-Ready t awake s a v = v

  resume-Ready :
      (t : ℕ) (p : Phase) (s : System T) → t < threads → Ready s → Ready (resume threads t p s)
  resume-Ready t outside s a v = v
  resume-Ready t waiting s a v = v
  resume-Ready t awake s a v = wait_and_pop-Ready t s.data_queue s a refl v

  wake_spuriously-Ready :
      (t : ℕ) (p : Phase) (s : System T)
      → t < threads
      → Ready s
      → Ready (wake_spuriously threads t p s)
  wake_spuriously-Ready t outside s a v = v
  wake_spuriously-Ready t waiting s a v = wait_and_pop-Ready t s.data_queue s a refl v
  wake_spuriously-Ready t awake s a v = v

  turn-Ready : (u : Turn T) (s : System T) → Ready s → Ready (turn threads u s)
  unfolding turn
  turn-Ready (pushes w x) s v = push-Ready w x s v
  turn-Ready (calls t) s v =
      if-Ready (ltb t threads) _ _ (λ h. call-Ready t (s.phases t) s (ltb→lt t threads h) v) v
  turn-Ready (resumes t) s v =
      if-Ready (ltb t threads) _ _ (λ h. resume-Ready t (s.phases t) s (ltb→lt t threads h) v) v
  turn-Ready (wakes_spuriously t) s v =
      if-Ready (ltb t threads) _ _
        (λ h. wake_spuriously-Ready t (s.phases t) s (ltb→lt t threads h) v) v
  turn-Ready tries s v = try_pop-Ready s.data_queue s refl v

  run-Ready : (us : List (Turn T)) (s : System T) → Ready s → Ready (run threads us s)
  unfolding run
  run-Ready [] s v = v
  run-Ready (u ∷ us) s v = run-Ready us (turn threads u s) (turn-Ready u s v)

  -- A thread that has had the mutex is no longer awake.
  wait_and_pop-asleep :
      (t : ℕ) (xs : List T) (s : System T) → woken ((wait_and_pop threads t xs s).phases t) ≡ 0
  unfolding wait_and_pop
  wait_and_pop-asleep t [] s = ap woken (update_self s.phases t waiting)
  wait_and_pop-asleep t (x ∷ xs) s = ap woken (update_self s.phases t outside)

  wait_and_pop-others :
      (t j : ℕ) (xs : List T) (s : System T)
      → t ≢ j
      → (wait_and_pop threads t xs s).phases j ≡ s.phases j
  unfolding wait_and_pop
  wait_and_pop-others t j [] s ne = update_ne s.phases t j waiting ne
  wait_and_pop-others t j (x ∷ xs) s ne = update_ne s.phases t j outside ne

  resumes-asleep :
      (t : ℕ) (s : System T) → t < threads → woken ((turn threads (resumes t) s).phases t) ≡ 0
  unfolding turn
  resumes-asleep t s a = rw (lt→ltb t threads a) (rests (s.phases t) refl)
    where
      rests : (p : Phase) → s.phases t ≡ p → woken ((resume threads t p s).phases t) ≡ 0
      rests outside e = ap woken e
      rests waiting e = ap woken e
      rests awake e = wait_and_pop-asleep t s.data_queue s

  resumes-others :
      (t j : ℕ) (s : System T) → t ≢ j → (turn threads (resumes t) s).phases j ≡ s.phases j
  unfolding turn
  resumes-others t j s ne = elim (Bool-cases (ltb t threads)) [
    | inl e ↦ rw e (rests (s.phases t))
    | inr e ↦ rw e refl
  ]
    where
      rests : (p : Phase) → (resume threads t p s).phases j ≡ s.phases j
      rests outside = refl
      rests waiting = refl
      rests awake = wait_and_pop-others t j s.data_queue s ne

  resume_all-others :
      (n j : ℕ) (s : System T) → n ≤ j → (run threads (resume_all n) s).phases j ≡ s.phases j
  unfolding run
  resume_all-others zero j s a = refl
  resume_all-others (suc n) j s a =
      resume_all-others n j (turn threads (resumes n) s) (omega arith)
      ∙ resumes-others n j s (λ e. omega arith)

  resume_all-asleep :
      (n i : ℕ) (s : System T)
      → n ≤ threads
      → i < n
      → woken ((run threads (resume_all n) s).phases i) ≡ 0
  unfolding run
  resume_all-asleep zero i s a b = absurd (omega arith)
  resume_all-asleep (suc n) i s a b = elim (dec_lt i n) [
    | yes c ↦ resume_all-asleep n i (turn threads (resumes n) s) (omega arith) c
    | no c ↦
        let same : i ≡ n = omega arith in
        ap woken (resume_all-others n i (turn threads (resumes n) s) (omega arith))
        ∙ subst (λ k. woken ((turn threads (resumes n) s).phases k) ≡ 0) (sym same)
            (resumes-asleep n s (omega arith))
  ]

  -- In every schedule the values pushed are, in order, those received and those queued. And no wake-up
  -- is lost: once every thread that was notified has had the mutex, the queue is empty or no thread
  -- waits.
  pub run_fifo-awake :
      (us : List (Turn T))
      → ((run threads us new).pushed
          ≡ (run threads us new).received ++ (run threads us new).data_queue)
        × (((run threads (resume_all threads) (run threads us new)).data_queue ≡ [])
            ⊎ (all_waiting threads (run threads (resume_all threads) (run threads us new)).phases
                ≡ 0))
  run_fifo-awake us =
      let v = run-Ready us new (record { fifo = refl; enough = inl (omega arith) }) in
      let w = run-Ready (resume_all threads) (run threads us new) v in
      (
        v.fifo,
        elim w.enough [
          | inl h ↦ inl (
              no_values _ (
                omega (
                  arith,
                  h,
                  sum_zero
                      (λ t.
                        woken ((run threads (resume_all threads) (run threads us new)).phases t))
                      threads
                      (λ t a. resume_all-asleep threads t (run threads us new) (omega arith) a),
                )))
          | inr h ↦ inr h
        ],
      )
