-- ===== src/LockFreeQueue/Invariant.antt =====
-- What holds between the accesses of a producer and a consumer of lock_free_queue.hpp.
use emb_linux.Prelude.{
  ℕ, suc, ◌+◌, ◌%◌, ◌≤◌, ◌<◌, ◌≡◌, ◌≢◌, sym, ap, ◌∙◌, List, [], ◌∷◌, ◌++◌, arith, length,
  length-append, update,
}
use emb_linux.LockFreeQueue.{
  Queue, Producer, Consumer, System, next_index, loaded_tail, checked_full, wrote_cell, loaded_head,
  checked_empty, read_cell,
}
use emb_linux.LockFreeQueue.Window.{window, window-snoc, window-update}
use emb_linux.LockFreeQueue.Sequential.{Holds, empty_iff, next-tail}

module _ {ℓ} {A : Type ℓ} (capacity : ℕ) (q : Queue A) (xs : List A) where
  -- What the producer's locals say about the queue.
  abbrev pub Producing : Producer A → Type ℓ
  Producing Producer.idle = Unit
  Producing (loaded_tail t x) = (t ≡ q.tail) × Unit {ℓ}
  Producing (checked_full t x) = (t ≡ q.tail) × (length xs < capacity) × Unit {ℓ}
  Producing (wrote_cell t x) = (t ≡ q.tail) × (length xs < capacity) × (q.buffer t ≡ x)

  -- What the consumer's locals say about the queue.
  abbrev pub Consuming : Consumer A → Type ℓ
  Consuming Consumer.idle = Unit
  Consuming (loaded_head h) = (h ≡ q.head) × Unit {ℓ}
  Consuming (checked_empty h) = (h ≡ q.head) × (0 < length xs) × Unit {ℓ}
  Consuming (read_cell h x) = (h ≡ q.head) × (0 < length xs) × (q.buffer h ≡ x)

-- `xs` are the values in the queue: accepted and not yet taken, oldest first.
pub record Inv {ℓ} {A : Type ℓ} (capacity : ℕ) (s : System A) (xs : List A) : Type ℓ where
  pub holds : Holds capacity s.queue xs
  pub history : s.accepted ≡ s.taken ++ xs
  pub producing : Producing capacity s.queue xs s.producer
  pub consuming : Consuming capacity s.queue xs s.consumer

module _ {ℓ} {A : Type ℓ} (capacity : ℕ) where
  -- The cell behind the last value may be written while the queue is not full.
  pub Holds-write :
      {q : Queue A} {xs : List A} (x : A)
      → Holds capacity q xs
      → Holds capacity (record q { buffer = update q.buffer q.tail x }) xs
  Holds-write {q} {xs} x v = record {
    small = v.small;
    head_in = v.head_in;
    fits = v.fits;
    tail_at = v.tail_at;
    values =
        window-update capacity q.buffer x q.head (length xs) (length xs) q.tail v.head_in
          (omega arith) v.fits v.tail_at
        ∙ v.values;
  }

  -- Moving the tail on publishes the value in its cell.
  pub Holds-publish :
      {q : Queue A} {xs : List A} (x : A)
      → Holds capacity q xs
      → length xs < capacity
      → q.buffer q.tail ≡ x
      → Holds capacity (record q { tail = next_index capacity q.tail }) (xs ++ (x ∷ []))
  Holds-publish {q} {xs} x v room e = record {
    small = v.small;
    head_in = v.head_in;
    fits = omega (arith, length-append xs (x ∷ []));
    tail_at = next-tail capacity v ∙ ap (λ k. (q.head + k) % (capacity + 1)) (sym grown);
    values =
        ap (window capacity q.buffer q.head) grown
        ∙ window-snoc capacity q.buffer q.head (length xs) v.head_in v.fits
        ∙ ap (λ ys. ys ++ (q.buffer ((q.head + length xs) % (capacity + 1)) ∷ [])) v.values
        ∙ ap (λ y. xs ++ (y ∷ [])) (ap q.buffer (sym v.tail_at) ∙ e);
  }
    where
      grown : length (xs ++ (x ∷ [])) ≡ suc (length xs)
      grown = omega (arith, length-append xs (x ∷ []))

  -- The head and the tail are different cells unless the queue is empty.
  pub head-ne-tail :
      {q : Queue A} {xs : List A} → Holds capacity q xs → 0 < length xs → q.head ≢ q.tail
  head-ne-tail v p e = omega (arith, (empty_iff capacity v).0 e)

  -- What a thread knows outlives the other thread's accesses.
  pub Consuming-stable :
      (c : Consumer A) (q q' : Queue A) (xs ys : List A)
      → q'.head ≡ q.head
      → length xs ≤ length ys
      → (0 < length xs → q'.buffer q.head ≡ q.buffer q.head)
      → Consuming capacity q xs c
      → Consuming capacity q' ys c
  Consuming-stable Consumer.idle q q' xs ys e l b h = tt
  Consuming-stable (loaded_head i) q q' xs ys e l b h = (h.0 ∙ sym e, tt)
  Consuming-stable (checked_empty i) q q' xs ys e l b h = (h.0 ∙ sym e, omega (arith, h.1), tt)
  Consuming-stable (read_cell i x) q q' xs ys e l b h =
      (h.0 ∙ sym e, omega (arith, h.1), ap q'.buffer h.0 ∙ b h.1 ∙ ap q.buffer (sym h.0) ∙ h.2)

  pub Producing-stable :
      (p : Producer A) (q q' : Queue A) (xs ys : List A)
      → q'.tail ≡ q.tail
      → length ys ≤ length xs
      → q'.buffer q.tail ≡ q.buffer q.tail
      → Producing capacity q xs p
      → Producing capacity q' ys p
  Producing-stable Producer.idle q q' xs ys e l b h = tt
  Producing-stable (loaded_tail i x) q q' xs ys e l b h = (h.0 ∙ sym e, tt)
  Producing-stable (checked_full i x) q q' xs ys e l b h = (h.0 ∙ sym e, omega (arith, h.1), tt)
  Producing-stable (wrote_cell i x) q q' xs ys e l b h =
      (h.0 ∙ sym e, omega (arith, h.1), ap q'.buffer h.0 ∙ b ∙ ap q.buffer (sym h.0) ∙ h.2)
