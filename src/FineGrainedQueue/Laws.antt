-- ===== src/FineGrainedQueue/Laws.antt =====
-- The nodes and the values of threadsafe_queue_fine_grained under its two locks.
use emb_linux.Prelude.{
  ℕ, ◌≤◌, ◌<◌, ◌≡◌, ◌≢◌, refl, sym, ap, ◌∙◌, subst, List, [], ◌∷◌, ◌++◌, none, some, Option, arith,
  update, update_eq, update_ne, append_assoc, Bool-cases, inl, inr, eq→==, true-ne_false, ◌==◌,
  some_inj, none-ne_some, if◌then◌else◌,
}
use emb_linux.FineGrainedQueue.{
  Queue, new, Section, pushes, gets_tail, pops_head, push, get_tail, pop_head, try_pop_head, step,
  run,
}

-- Two nodes are the same.
pub record AtEnd {ℓ} (i tail : ℕ) : Type ℓ where
  pub same : i ≡ tail

-- From node `i` the links lead to the tail, each to a later node, past these values.
abbrev pub Linked {ℓ} : {A : Type ℓ} → (ℕ → Option A) → (ℕ → ℕ) → ℕ → ℕ → List A → Type ℓ
Linked data_at next tail i [] = AtEnd {ℓ} i tail
Linked data_at next tail i (x ∷ xs) =
    (data_at i ≡ some x) × (i < next i) × Linked data_at next tail (next i) xs

-- What is kept: `items` are linked from the head to the tail, the nodes are allocated, and the tail
-- that the holder of `head_mutex` has read lies between the head and the tail.
pub record Holds {ℓ} {A : Type ℓ} (q : Queue A) (items : List A) : Type ℓ where
  pub linked : Linked q.data_at q.next q.tail q.head items
  pub allocated : q.tail < q.next_node
  pub between : (t : ℕ) → q.holder ≡ some t → (q.head ≤ t) × (t ≤ q.tail)
  pub order : q.pushed ≡ q.popped ++ items

module _ {ℓ} {A : Type ℓ} where
  Linked-le :
      (data_at : ℕ → Option A) (next : ℕ → ℕ) (tail i : ℕ) (xs : List A)
      → Linked data_at next tail i xs
      → i ≤ tail
  Linked-le data_at next tail i [] h = omega (arith, h.same)
  Linked-le data_at next tail i (x ∷ xs) h =
      omega (arith, h.1, Linked-le data_at next tail (next i) xs h.2)

  -- The tail takes a value and a new node becomes the tail.
  Linked-push :
      (data_at : ℕ → Option A) (next : ℕ → ℕ) (tail node i : ℕ) (xs : List A) (x : A)
      → tail < node
      → Linked data_at next tail i xs
      → Linked
          (update data_at tail (some x))
          (update (update next node 0) tail node)
          node
          i
          (xs ++ (x ∷ []))
  Linked-push data_at next tail node i [] x a h =
      let e = update_eq (update next node 0) tail i node (sym h.same) in
      (
        update_eq data_at tail i (some x) (sym h.same),
        omega (arith, a, h.same, e),
        record { same = e },
      )
  Linked-push data_at next tail node i (y ∷ ys) x a h =
      let b = Linked-le data_at next tail (next i) ys h.2 in
      let e : update (update next node 0) tail node i ≡ next i =
        update_ne (update next node 0) tail i node (λ f. omega (arith, f, h.1, b))
        ∙ update_ne next node i 0 (λ f. omega (arith, f, h.1, b, a)) in
      (
        update_ne data_at tail i (some x) (λ f. omega (arith, f, h.1, b)) ∙ h.0,
        omega (arith, e, h.1),
        subst
            (λ k.
              Linked (update data_at tail (some x)) (update (update next node 0) tail node) node k
                (ys ++ (x ∷ [])))
            (sym e) (Linked-push data_at next tail node (next i) ys x a h.2),
      )

  push-Holds :
      (x : A) (q : Queue A) (items : List A) → Holds q items → Holds (push x q) (items ++ (x ∷ []))
  unfolding push
  push-Holds x q items v = record {
    linked = Linked-push q.data_at q.next q.tail q.next_node q.head items x v.allocated v.linked;
    allocated = omega arith;
    between = λ t e. let b = v.between t e in (b.0, omega (arith, b.1, v.allocated));
    order = ap (λ k. k ++ (x ∷ [])) v.order ∙ append_assoc q.popped items (x ∷ []);
  }

  get_tail-Holds :
      (o : Option ℕ) (q : Queue A) (items : List A)
      → q.holder ≡ o
      → Holds q items
      → Holds (get_tail o q) items
  unfolding get_tail
  get_tail-Holds none q items e v = record {
    linked = v.linked;
    allocated = v.allocated;
    between = λ t f.
        let b = Linked-le q.data_at q.next q.tail q.head items v.linked in
        (omega (arith, some_inj f, b), omega (arith, some_inj f));
    order = v.order;
  }
  get_tail-Holds (some t) q items e v = v

  -- What a step leads to: no use of null, and values that are held.
  Safe : Option (Queue A) → Type ℓ
  Safe o = (q : Queue A) × (items : List A) × (o ≡ some q) × Holds q items

  pop-Safe :
      (t : ℕ) (q : Queue A) (items : List A)
      → q.holder ≡ some t
      → q.head ≢ t
      → Holds q items
      → Safe (pop_head (q.data_at q.head) q)
  unfolding pop_head Safe
  pop-Safe t q [] e ne v =
      let b = v.between t e in absurd (ne (omega (arith, b.0, b.1, v.linked.same)))
  pop-Safe t q (x ∷ xs) e ne v = rw (v.linked.0) (
    record q { head = q.next q.head; holder = none; popped = q.popped ++ (x ∷ []) },
    xs,
    refl,
    record {
      linked = v.linked.2;
      allocated = v.allocated;
      between = λ t f. absurd (none-ne_some f);
      order = v.order ∙ sym (append_assoc q.popped (x ∷ []) xs);
    },
  )

  try_pop-Safe :
      (o : Option ℕ) (q : Queue A) (items : List A)
      → q.holder ≡ o
      → Holds q items
      → Safe (try_pop_head o q)
  unfolding try_pop_head Safe
  try_pop-Safe none q items e v = (q, items, refl, v)
  try_pop-Safe (some t) q items e v = elim (Bool-cases (q.head == t)) [
    | inl h ↦ (
      record q { holder = none },
      items,
      ap (λ b. if b then some (record q { holder = none }) else pop_head (q.data_at q.head) q) h,
      record {
        linked = v.linked;
        allocated = v.allocated;
        between = λ t f. absurd (none-ne_some f);
        order = v.order;
      },
    )
    | inr h ↦
        subst
          (λ b.
            Safe (if b then some (record q { holder = none }) else pop_head (q.data_at q.head) q))
          (sym h) (pop-Safe t q items e (λ f. true-ne_false (sym (eq→== q.head t f) ∙ h)) v)
  ]

  step-Safe : (s : Section A) (q : Queue A) (items : List A) → Holds q items → Safe (step s q)
  unfolding step Safe
  step-Safe (pushes x) q items v = (push x q, items ++ (x ∷ []), refl, push-Holds x q items v)
  step-Safe gets_tail q items v =
      (get_tail q.holder q, items, refl, get_tail-Holds q.holder q items refl v)
  step-Safe pops_head q items v = try_pop-Safe q.holder q items refl v

  run-Safe :
      (ss : List (Section A)) (q : Queue A) (items : List A) → Holds q items → Safe (run ss q)
  unfolding run Safe
  run-Safe [] q items v = (q, items, refl, v)
  run-Safe (s ∷ ss) q items v =
      let (r, rest, e, w) = step-Safe s q items v in
      let (last, left, f, z) = run-Safe ss r rest w in
      (last, left, ap (λ o. elim o [ none ↦ none | some u ↦ run ss u ]) e ∙ f, z)

  new-Holds : Holds (new {A = A}) []
  new-Holds = record {
    linked = record { same = refl };
    allocated = omega arith;
    between = λ t e. absurd (none-ne_some e);
    order = refl;
  }

  -- In every interleaving of the sections of a new queue no null pointer is used, and the values
  -- pushed are, in order, those popped and those linked from the head to the tail.
  pub run_fifo-Linked :
      (sections : List (Section A))
      → (q : Queue A) × (items : List A) × (run sections new ≡ some q)
        × Linked q.data_at q.next q.tail q.head items
        × (q.pushed ≡ q.popped ++ items)
  unfolding Safe
  run_fifo-Linked sections =
      let (q, items, e, v) = run-Safe sections new [] new-Holds in (q, items, e, v.linked, v.order)
