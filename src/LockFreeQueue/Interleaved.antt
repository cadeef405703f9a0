-- ===== src/LockFreeQueue/Interleaved.antt =====
-- One producer and one consumer, their accesses interleaved by any schedule.
use emb_linux.Prelude.{
  ℕ, ◌+◌, ◌^◌, ◌<◌, ◌≡◌, ◌≢◌, refl, sym, ap, ◌∙◌, inl, inr, List, [], ◌∷◌, ◌++◌, subst, false,
  arith, mod_once, length, length-append, ◌==◌, Bool-cases, update, update_self, update_ne,
  append_assoc,
}
use emb_linux.LockFreeQueue.{
  Queue, Producer, Consumer, System, Turn, producer_turn, consumer_turn, next_index, produce,
  consume, turn, run, initial, loaded_tail, checked_full, wrote_cell, loaded_head, checked_empty,
  read_cell,
}
use emb_linux.LockFreeQueue.Sequential.{Holds, Holds-pop, full_iff, empty_iff}
use emb_linux.LockFreeQueue.Invariant.{
  Producing, Consuming, Inv, Holds-write, Holds-publish, head-ne-tail, Consuming-stable,
  Producing-stable,
}

module _ {ℓ} {A : Type ℓ} (capacity : ℕ) where
  produce-Inv :
      (p : Producer A) (value : A) {s : System A} {xs : List A}
      → Inv capacity s xs
      → Producing capacity s.queue xs p
      → (ys : List A) × Inv capacity (produce capacity p value s) ys
  unfolding produce
  produce-Inv Producer.idle value {xs = xs} v h = (
    xs,
    record {
      holds = v.holds;
      history = v.history;
      producing = (refl, tt);
      consuming = v.consuming;
    },
  )
  produce-Inv (loaded_tail t x) value {s} {xs = xs} v h =
      elim (Bool-cases (next_index capacity t == s.queue.head)) [
        | inl e ↦ rw e (
          xs,
          record { holds = v.holds; history = v.history; producing = tt; consuming = v.consuming },
        )
        | inr e ↦ rw e (
          xs,
          record {
            holds = v.holds;
            history = v.history;
            producing = (h.0, room e, tt);
            consuming = v.consuming;
          },
        )
      ]
    where
      room : (next_index capacity t == s.queue.head) ≡ false → length xs < capacity
      room e = ground (arith, (full_iff capacity v.holds).1, v.holds.fits, h.0)
  produce-Inv (checked_full t x) value {s} {xs = xs} v h = (
    xs,
    record {
      holds =
          subst (λ k. Holds capacity (record (s.queue) { buffer = update s.queue.buffer k x }) xs)
            (sym h.0) (Holds-write capacity x v.holds);
      history = v.history;
      producing = (h.0, h.1, update_self s.queue.buffer t x);
      consuming =
          Consuming-stable capacity s.consumer s.queue
            (record (s.queue) { buffer = update s.queue.buffer t x }) xs xs refl (omega arith)
            (λ p.
              update_ne s.queue.buffer t s.queue.head x
                (λ e. head-ne-tail capacity v.holds p (sym e ∙ h.0)))
            v.consuming;
    },
  )
  produce-Inv (wrote_cell t x) value {s} {xs = xs} v h = (
    xs ++ (x ∷ []),
    record {
      holds =
          subst
            (λ k.
              Holds capacity (record (s.queue) { tail = next_index capacity k }) (xs ++ (x ∷ [])))
            (sym h.0) (Holds-publish capacity x v.holds h.1 (ap s.queue.buffer (sym h.0) ∙ h.2));
      history = ap (λ k. k ++ (x ∷ [])) v.history ∙ append_assoc s.taken xs (x ∷ []);
      producing = tt;
      consuming =
          Consuming-stable capacity s.consumer s.queue
            (record (s.queue) { tail = next_index capacity t }) xs (xs ++ (x ∷ [])) refl
            (omega (arith, length-append xs (x ∷ []))) (λ p. refl) v.consuming;
    },
  )

  consume-Inv :
      (c : Consumer A) {s : System A} {xs : List A}
      → Inv capacity s xs
      → Consuming capacity s.queue xs c
      → (ys : List A) × Inv capacity (consume capacity c s) ys
  unfolding consume
  consume-Inv Consumer.idle {xs = xs} v h = (
    xs,
    record {
      holds = v.holds;
      history = v.history;
      producing = v.producing;
      consuming = (refl, tt);
    },
  )
  consume-Inv (loaded_head i) {s} {xs = xs} v h = elim (Bool-cases (i == s.queue.tail)) [
    | inl e ↦ rw e (
      xs,
      record { holds = v.holds; history = v.history; producing = v.producing; consuming = tt },
    )
    | inr e ↦ rw e (
      xs,
      record {
        holds = v.holds;
        history = v.history;
        producing = v.producing;
        consuming = (h.0, some_left e, tt);
      },
    )
  ]
    where
      some_left : (i == s.queue.tail) ≡ false → 0 < length xs
      some_left e = ground (arith, (empty_iff capacity v.holds).1, h.0)
  consume-Inv (checked_empty i) {s} {xs = xs} v h = (
    xs,
    record {
      holds = v.holds;
      history = v.history;
      producing = v.producing;
      consuming = (h.0, h.1, refl);
    },
  )
  consume-Inv (read_cell i x) {xs = []} v h = absurd (omega (arith, h.1))
  consume-Inv (read_cell i x) {s} {xs = y ∷ ys} v h = (
    ys,
    record {
      holds =
          subst (λ k. Holds capacity (record (s.queue) { head = next_index capacity k }) ys)
            (sym h.0) (Holds-pop capacity v.holds).1;
      history =
          v.history
          ∙ ap (λ z. s.taken ++ (z ∷ ys))
              (sym (Holds-pop capacity v.holds).0 ∙ ap s.queue.buffer (sym h.0) ∙ h.2)
          ∙ sym (append_assoc s.taken (x ∷ []) ys);
      producing =
          Producing-stable capacity s.producer s.queue
            (record (s.queue) { head = next_index capacity i }) (y ∷ ys) ys refl (omega arith) refl
            v.producing;
      consuming = tt;
    },
  )

  turn-Inv :
      (t : Turn A) {s : System A} {xs : List A}
      → Inv capacity s xs
      → (ys : List A) × Inv capacity (turn capacity t s) ys
  unfolding turn
  turn-Inv (producer_turn value) {s} v = produce-Inv s.producer value v v.producing
  turn-Inv consumer_turn {s} v = consume-Inv s.consumer v v.consuming

  run-Inv :
      (ts : List (Turn A)) {s : System A} {xs : List A}
      → Inv capacity s xs
      → (ys : List A) × Inv capacity (run capacity ts s) ys
  unfolding run
  run-Inv [] {xs = xs} v = (xs, v)
  run-Inv (t ∷ ts) v = run-Inv ts (turn-Inv t v).1

  initial-Inv : (buffer : ℕ → A) → capacity + 1 < 2 ^ 64 → Inv capacity (initial buffer) []
  initial-Inv buffer small = record {
    holds = record {
      small = small;
      head_in = omega arith;
      fits = omega arith;
      tail_at = omega (arith, mod_once 0 (capacity + 1));
      values = refl;
    };
    history = refl;
    producing = tt;
    consuming = tt;
  }

  -- For every schedule of one producer and one consumer, started on a new queue: the values of the
  -- successful pushes are, in order, those that pops returned followed by at most `capacity` values
  -- that the ring still holds. So none is lost, repeated or reordered.
  pub run_fifo :
      (buffer : ℕ → A) (ts : List (Turn A))
      → capacity + 1 < 2 ^ 64
      → (xs : List A) × ((run capacity ts (initial buffer)).accepted
          ≡ (run capacity ts (initial buffer)).taken ++ xs)
        × Holds capacity (run capacity ts (initial buffer)).queue xs
  run_fifo buffer ts small =
      let (xs, v) = run-Inv ts (initial-Inv buffer small) in (xs, v.history, v.holds)

  cells_apart :
      {q : Queue A} {xs : List A} (p : Producer A) (c : Consumer A) (t h : ℕ) (x : A)
      → Holds capacity q xs
      → Producing capacity q xs p
      → Consuming capacity q xs c
      → p ≡ checked_full t x
      → c ≡ checked_empty h
      → t ≢ h
  cells_apart {q} {xs} p c t h x v hp hc ep ec e =
      head-ne-tail capacity v cons.1 (sym cons.0 ∙ sym e ∙ prod.0)
    where
      prod : Producing capacity q xs (checked_full t x)
      prod = subst (Producing capacity q xs) ep hp

      cons : Consuming capacity q xs (checked_empty h)
      cons = subst (Consuming capacity q xs) ec hc

  -- For every schedule, when the producer is about to write a cell and the consumer is about to
  -- read one, the cells differ: the unsynchronised buffer has no data race.
  pub run_no_race :
      (buffer : ℕ → A) (ts : List (Turn A)) (t h : ℕ) (x : A)
      → capacity + 1 < 2 ^ 64
      → (run capacity ts (initial buffer)).producer ≡ checked_full t x
      → (run capacity ts (initial buffer)).consumer ≡ checked_empty h
      → t ≢ h
  run_no_race buffer ts t h x small ep ec =
      let (xs, v) = run-Inv ts (initial-Inv buffer small) in
      cells_apart _ _ t h x v.holds v.producing v.consuming ep ec
