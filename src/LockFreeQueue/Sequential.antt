-- ===== src/LockFreeQueue/Sequential.antt =====
-- `push` and `pop` run alone, against a bounded queue.
use emb_linux.Prelude.{
  ℕ, suc, ◌+◌, ◌%◌, ◌^◌, ◌≤◌, ◌<◌, ◌≡◌, refl, sym, ap, ap₂, ◌∙◌, inl, inr, ◌==◌, Bool-cases, ==→eq,
  eq→==, ==-false, lt→ltb, length-append, add-mod-shift, List, [], ◌∷◌, ◌++◌, Bool, true, false,
  Option, none, some, arith, mod_once, length, ltb, if◌then◌else◌, update, update_self,
  add-mod-next,
}
use emb_linux.LockFreeQueue.{Queue, push, pop, next_index}
use emb_linux.LockFreeQueue.Window.{window, window-snoc, window-update, next_index_lem}

-- The bounded queue that a ring with this number of usable cells promises to be.
module _ {ℓ} {A : Type ℓ} where
  abbrev pub bounded_push : ℕ → A → List A → Bool × List A
  bounded_push capacity x xs =
      if ltb (length xs) capacity then (true, xs ++ (x ∷ [])) else (false, xs)

  abbrev pub bounded_pop : List A → Option A × List A
  bounded_pop [] = (none, [])
  bounded_pop (x ∷ xs) = (some x, xs)

-- The ring holds `xs`, oldest first, with both indices inside the buffer.
pub record Holds {ℓ} {A : Type ℓ} (capacity : ℕ) (q : Queue A) (xs : List A) : Type ℓ where
  pub small : capacity + 1 < 2 ^ 64
  pub head_in : q.head ≤ capacity
  pub fits : length xs ≤ capacity
  pub tail_at : q.tail ≡ (q.head + length xs) % (capacity + 1)
  pub values : window capacity q.buffer q.head (length xs) ≡ xs

module _ {ℓ} {A : Type ℓ} (capacity : ℕ) {q : Queue A} {xs : List A} (v : Holds capacity q xs) where
  open v use {small, head_in, fits, tail_at, values}

  pub tail-le : q.tail ≤ capacity
  tail-le = omega (arith, mod_once (q.head + length xs) (capacity + 1))

  pub next-tail : next_index capacity q.tail ≡ (q.head + suc (length xs)) % (capacity + 1)
  next-tail =
      next_index_lem capacity q.tail small tail-le
      ∙ ap (λ k. (k + 1) % (capacity + 1)) tail_at
      ∙ add-mod-next q.head (length xs) (capacity + 1) (omega arith) (omega arith)

  -- The cell after the last one is the head exactly when every usable cell is taken.
  pub full_iff :
      ((next_index capacity q.tail ≡ q.head) → length xs ≡ capacity)
      × (length xs ≡ capacity → next_index capacity q.tail ≡ q.head)
  full_iff = (
    λ e. omega (arith, next-tail, mod_once (q.head + suc (length xs)) (capacity + 1)),
    λ e. omega (arith, next-tail, mod_once (q.head + suc (length xs)) (capacity + 1)),
  )

  pub empty_iff : (q.head ≡ q.tail → length xs ≡ 0) × (length xs ≡ 0 → q.head ≡ q.tail)
  empty_iff = (
    λ e. omega (arith, mod_once (q.head + length xs) (capacity + 1)),
    λ e. omega (arith, mod_once (q.head + length xs) (capacity + 1)),
  )

  -- A value written at the tail, with the tail moved on, is held last.
  pub Holds-push :
      (x : A)
      → length xs < capacity
      → Holds capacity
          (record q { buffer = update q.buffer q.tail x; tail = next_index capacity q.tail })
          (xs ++ (x ∷ []))
  Holds-push x room = record {
    small = small;
    head_in = head_in;
    fits = omega (arith, length-append xs (x ∷ []));
    tail_at = next-tail ∙ ap (λ k. (q.head + k) % (capacity + 1)) (sym grown);
    values =
        ap (window capacity (update q.buffer q.tail x) q.head) grown
        ∙ window-snoc capacity (update q.buffer q.tail x) q.head (length xs) head_in fits
        ∙ ap₂ (λ ys y. ys ++ (y ∷ []))
            (window-update capacity q.buffer x q.head (length xs) (length xs) q.tail head_in
                (omega arith) fits tail_at
              ∙ values)
            (ap (update q.buffer q.tail x) (sym tail_at) ∙ update_self q.buffer q.tail x);
  }
    where
      grown : length (xs ++ (x ∷ [])) ≡ suc (length xs)
      grown = omega (arith, length-append xs (x ∷ []))

-- With the head moved on, the oldest value is gone; it was in the head's cell.
pub Holds-pop {ℓ} :
    {A : Type ℓ} (capacity : ℕ) {q : Queue A} {x : A} {xs : List A}
    → Holds capacity q (x ∷ xs)
    → (q.buffer q.head ≡ x) × Holds capacity (record q { head = next_index capacity q.head }) xs
Holds-pop capacity {q} {x} {xs} v = (
  ground (arith, v.values),
  record {
    small = v.small;
    head_in = omega (arith, moved);
    fits = omega (arith, v.fits);
    tail_at = rw moved (
        v.tail_at
        ∙ sym (
            add-mod-shift q.head (length xs) (capacity + 1) (omega (arith, v.head_in))
              (omega (arith, v.fits))));
    values = rw moved (ground (arith, v.values));
  },
)
  where
    moved : next_index capacity q.head ≡ (q.head + 1) % (capacity + 1)
    moved = next_index_lem capacity q.head v.small v.head_in

module _ {ℓ} {A : Type ℓ} where
  -- `push` answers as the bounded queue does and leaves the ring holding its values.
  push_refines :
      (capacity : ℕ) {q : Queue A} {xs : List A} (x : A)
      → Holds capacity q xs
      → ((push capacity x q).0 ≡ (bounded_push capacity x xs).0)
        × Holds capacity (push capacity x q).1 (bounded_push capacity x xs).1
  unfolding push
  push_refines capacity {q} {xs} x v = elim (Bool-cases (next_index capacity q.tail == q.head)) [
    | inl e ↦ rw (e, not_ltb (omega (arith, (full_iff capacity v).0 (==→eq _ _ e)))) (refl, v)
    | inr e ↦ rw (e, lt→ltb _ _ (room e)) (refl, Holds-push capacity v x (room e))
  ]
    where
      room : (next_index capacity q.tail == q.head) ≡ false → length xs < capacity
      room e = ground (arith, (full_iff capacity v).1, v.fits)

      not_ltb : length xs ≡ capacity → ltb (length xs) capacity ≡ false
      not_ltb e = ground arith

  -- `pop` answers as the bounded queue does and leaves the ring holding the rest.
  pop_refines :
      (capacity : ℕ) {q : Queue A} {xs : List A}
      → Holds capacity q xs
      → ((pop capacity q).0 ≡ (bounded_pop xs).0)
        × Holds capacity (pop capacity q).1 (bounded_pop xs).1
  unfolding pop
  pop_refines capacity {q} {xs = []} v = rw (eq→== _ _ ((empty_iff capacity v).1 refl)) (refl, v)
  pop_refines capacity {q} {xs = x ∷ xs} v =
      rw (==-false q.head q.tail (λ e. omega (arith, (empty_iff capacity v).0 e)))
        (ap some (Holds-pop capacity v).0, (Holds-pop capacity v).1)

  -- On a ring that holds some values, `push` and `pop` answer as a bounded queue of these values does, at
  -- every fill level, and leave a ring that holds the values of that queue.
  calls_refine :
      (capacity : ℕ) {q : Queue A} {xs : List A} (x : A)
      → Holds capacity q xs
      → (((push capacity x q).0 ≡ (bounded_push capacity x xs).0)
          × Holds capacity (push capacity x q).1 (bounded_push capacity x xs).1)
        × (((pop capacity q).0 ≡ (bounded_pop xs).0)
            × Holds capacity (pop capacity q).1 (bounded_pop xs).1)
  calls_refine capacity x v = (push_refines capacity x v, pop_refines capacity v)
