-- ===== src/ThreadSafeQueue/Laws.antt =====
-- What the semaphore of thread_safe_queue.hpp counts, with and without `try_pop`.
use emb_linux.Prelude.{
  ℕ, zero, suc, ◌+◌, ◌<◌, ◌≡◌, refl, sym, ap, ◌∙◌, List, [], ◌∷◌, ◌++◌, none, some, arith, length,
  length-append, append_assoc, Option-cases, Bool, true, false, some_inj, inl, inr, subst,
}
use emb_linux.ThreadSafeQueue.{
  State, Action, new, step, run, wait_and_pop, push_locked, enqueue, release, try_pop, acquire,
  take, release_from, try_pop_from, acquire_from, take_front,
}

-- The permits, with those on their way, are the values that no `try_pop` has taken.
pub record Inv {ℓ} {A : Type ℓ} (s : State A) : Type ℓ where
  pub order : s.pushed ≡ s.received ++ s.items
  pub count : s.permits + s.releasing + s.acquired ≡ length s.items + length s.tried

module _ {ℓ} {A : Type ℓ} where
  try_pop_from-Inv : (xs : List A) {s : State A} → s.items ≡ xs → Inv s → Inv (try_pop_from xs s)
  unfolding try_pop_from
  try_pop_from-Inv [] e v = v
  try_pop_from-Inv (x ∷ xs) {s} e v = record {
    order = v.order ∙ ap (◌++◌ s.received) e ∙ sym (append_assoc s.received (x ∷ []) xs);
    count = omega (arith, v.count, ap length e, length-append s.tried (x ∷ []));
  }

  release_from-Inv : (n : ℕ) {s : State A} → s.releasing ≡ n → Inv s → Inv (release_from n s)
  unfolding release_from
  release_from-Inv zero e v = v
  release_from-Inv (suc n) e v = record { order = v.order; count = omega (arith, v.count) }

  acquire_from-Inv : (n : ℕ) {s : State A} → s.permits ≡ n → Inv s → Inv (acquire_from n s)
  unfolding acquire_from
  acquire_from-Inv zero e v = v
  acquire_from-Inv (suc n) e v = record { order = v.order; count = omega (arith, v.count) }

  take_front-Inv :
      (n : ℕ) (xs : List A) {s t : State A}
      → s.acquired ≡ n
      → s.items ≡ xs
      → Inv s
      → take_front n xs s ≡ some t
      → Inv t
  unfolding take_front
  take_front-Inv zero xs e f v h = ground arith
  take_front-Inv (suc n) [] e f v h = cc
  take_front-Inv (suc n) (x ∷ xs) {s} e f v h = subst Inv (some_inj h) (record {
    order = v.order ∙ ap (◌++◌ s.received) f ∙ sym (append_assoc s.received (x ∷ []) xs);
    count = omega (arith, v.count, ap length f);
  })

  push_locked-Inv : (x : A) {s : State A} → Inv s → Inv (push_locked x s)
  unfolding push_locked
  push_locked-Inv x {s} v = record {
    order = ap (λ k. k ++ (x ∷ [])) v.order ∙ append_assoc s.received s.items (x ∷ []);
    count = omega (arith, v.count, length-append s.items (x ∷ []));
  }

  step-Inv : (a : Action A) {s t : State A} → Inv s → step a s ≡ some t → Inv t
  unfolding step
  step-Inv (enqueue x) v e = subst Inv (some_inj e) (push_locked-Inv x v)
  step-Inv release {s} v e = subst Inv (some_inj e) (release_from-Inv s.releasing refl v)
  step-Inv try_pop {s} v e = subst Inv (some_inj e) (try_pop_from-Inv s.items refl v)
  step-Inv acquire {s} v e = subst Inv (some_inj e) (acquire_from-Inv s.permits refl v)
  step-Inv take {s} v e = take_front-Inv s.acquired s.items refl refl v e

  step-cases :
      (a : Action A) (rest : List (Action A)) (s : State A) {t : State A}
      → run (a ∷ rest) s ≡ some t
      → (u : State A) × (step a s ≡ some u) × (run rest u ≡ some t)
  unfolding run
  step-cases a rest s e = elim (Option-cases (step a s)) [
    | inl f ↦ ground arith
    | inr (u, f) ↦ (u, f, ground arith)
  ]

  -- In every interleaving that meets no undefined behaviour, the values pushed are, in order, those
  -- received and then those still queued; and the permits given out exceed the values queued by the
  -- number of values that `try_pop` took.
  pub run-Inv : (actions : List (Action A)) {s t : State A} → Inv s → run actions s ≡ some t → Inv t
  unfolding run
  run-Inv [] v e = subst Inv (some_inj e) v
  run-Inv (a ∷ rest) {s} v e =
      let (u, f, g) = step-cases a rest s e in run-Inv rest (step-Inv a v f) g

  pub new-Inv : Inv (new {A = A})
  new-Inv = record { order = refl; count = omega arith }

  abbrev pub is_try : Action A → Bool
  is_try try_pop = true
  is_try _ = false

  -- No action of the schedule is a `try_pop`.
  abbrev pub NoTry : List (Action A) → Type 0
  NoTry [] = Unit
  NoTry (a ∷ rest) = (is_try a ≡ false) × NoTry rest

  step-defined :
      (a : Action A) (s : State A)
      → Inv s
      → s.tried ≡ []
      → is_try a ≡ false
      → (t : State A) × (step a s ≡ some t) × (t.tried ≡ [])
  unfolding step
  step-defined (enqueue x) s v e h = (_, refl, e)
  step-defined release s v e h = (_, refl, ground arith)
  step-defined try_pop s v e h = cc
  step-defined acquire s v e h = (_, refl, ground arith)
  step-defined take s v e h = taken s.acquired s.items refl refl
    where
      taken :
          (n : ℕ) (xs : List A)
          → s.acquired ≡ n
          → s.items ≡ xs
          → (t : State A) × (take_front n xs s ≡ some t) × (t.tried ≡ [])
      taken zero xs f g = (_, refl, e)
      taken (suc n) [] f g = absurd (omega (arith, v.count, ap length g, ap length e))
      taken (suc n) (x ∷ xs) f g = (_, refl, e)

  run_from-defined :
      (actions : List (Action A)) (s : State A)
      → Inv s
      → s.tried ≡ []
      → NoTry actions
      → (t : State A) × (run actions s ≡ some t)
  unfolding run
  run_from-defined [] s v e h = (s, refl)
  run_from-defined (a ∷ rest) s v e h =
      let (t, f, g) = step-defined a s v e h.0 in
      let (u, k) = run_from-defined rest t (step-Inv a v f) g h.1 in (u, rw (f, run) k)

  -- Every interleaving of pushes and `wait_and_pop`s, with no `try_pop`, started on a new queue,
  -- runs without undefined behaviour; the values received are the first ones pushed, in order, and
  -- the rest is queued.
  pub run-defined :
      (actions : List (Action A))
      → NoTry actions
      → (t : State A) × (run actions new ≡ some t) × (t.pushed ≡ t.received ++ t.items)
  run-defined actions h =
      let (t, e) = run_from-defined actions new new-Inv refl h in
      (t, e, (run-Inv actions new-Inv e).order)

  -- As many `try_pop`s as a list has elements.
  abbrev pub tries : List A → List (Action A)
  tries [] = []
  tries (x ∷ xs) = try_pop ∷ tries xs

  drained :
      (xs : List A) (s : State A)
      → s.items ≡ xs
      → 0 < s.permits
      → s.acquired ≡ 0
      → run (tries xs ++ wait_and_pop) s ≡ none
  unfolding run step
  drained [] s e p z = ground (arith, acquire_at s.permits p refl)
    where
      acquire_at : (n : ℕ) → 0 < n → s.permits ≡ n → run (acquire ∷ take ∷ []) s ≡ none
      acquire_at zero h f = absurd (omega arith)
      acquire_at (suc n) h f = ground arith
  drained (x ∷ xs) s e p z = ground (arith, drained xs (try_pop_from (x ∷ xs) s) refl p z)

  -- When `try_pop` drains a queue that has a permit, as any queue at rest with a value in it has,
  -- the `wait_and_pop` that follows does not block: it is undefined behaviour.
  pub try_pop_then_wait_undefined :
      (s : State A) → 0 < s.permits → s.acquired ≡ 0 → run (tries s.items ++ wait_and_pop) s ≡ none
  try_pop_then_wait_undefined s p z = drained s.items s refl p z
