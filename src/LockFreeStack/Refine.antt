-- ===== src/LockFreeStack/Refine.antt =====
-- The stack of lock_free_stack.hpp against a bounded stack.
use emb_linux.Prelude.{
  ℕ, suc, ◌≤◌, ◌<◌, ◌≡◌, refl, ap, ap₂, inl, inr, List, [], ◌∷◌, Option, none, some, arith,
  Bool-cases, Bool, true, false, eq→==, if◌then◌else◌, map, length, ltb,
}
use emb_linux.LockFreeStack.{Stack, null_index, push, pop}
use emb_linux.LockFreeStack.Laws.{Holds, push-Holds, pop-Holds}

-- The stack holds `xs`, the newest first.
abbrev pub Represents {ℓ} : {A : Type ℓ} → ℕ → Stack A → List A → Type ℓ
Represents capacity s xs = (used : List ℕ) × (free : List ℕ) × Holds capacity s used free xs

pub data Op {ℓ} (A : Type ℓ) : Type ℓ where
  pushes : A → Op A
  pops : Op A

-- What a call returns: the answer of `push`, or the value of `pop`.
pub data Reply {ℓ} (A : Type ℓ) : Type ℓ where
  pushed : Bool → Reply A
  popped : Option A → Reply A

length-values {ℓ} :
    {A : Type ℓ} (content : ℕ → Option A) (used : List ℕ) (xs : List A)
    → map content used ≡ map some xs
    → length used ≡ length xs
length-values content [] [] e = refl
length-values content [] (x ∷ xs) e = cc
length-values content (j ∷ used) [] e = cc
length-values content (j ∷ used) (x ∷ xs) e =
    let tails : map content used ≡ map some xs = ground arith in
    ap suc (length-values content used xs tails)

module _ {ℓ} {A : Type ℓ} (capacity : ℕ) where
  -- The bounded stack that is promised.
  abbrev pub stack_run : List (Op A) → List A → List (Reply A)
  stack_run [] xs = []
  stack_run (pushes x ∷ ops) xs =
      if ltb (length xs) capacity
      then pushed true ∷ stack_run ops (x ∷ xs)
      else pushed false ∷ stack_run ops xs
  stack_run (pops ∷ ops) [] = popped none ∷ stack_run ops []
  stack_run (pops ∷ ops) (x ∷ xs) = popped (some x) ∷ stack_run ops xs

  unfoldable pub run : List (Op A) → Stack A → List (Reply A)
  run [] s = []
  run (pushes x ∷ ops) s = let (answer, t) = push x s in pushed answer ∷ run ops t
  run (pops ∷ ops) s = let (answer, t) = pop s in popped answer ∷ run ops t

  push-room :
      (x : A) (xs : List A) {s : Stack A}
      → Represents capacity s xs
      → length xs < capacity
      → ((push x s).0 ≡ true) × Represents capacity (push x s).1 (x ∷ xs)
  push-room x xs {s} (used, [], v) room =
      absurd (omega (arith, v.total, length-values s.content used xs v.values))
  push-room x xs (used, j ∷ free, v) room =
      let (e, w) = push-Holds capacity x j used free xs v in (e, (j ∷ used, free, w))

  push_full :
      (x : A) (xs : List A) {s : Stack A}
      → Represents capacity s xs
      → capacity ≤ length xs
      → push x s ≡ (false, s)
  unfolding push
  push_full x xs {s} (used, [], v) full = rw (eq→== s.free_head.index null_index v.spare)
  push_full x xs {s} (used, j ∷ free, v) full =
      absurd (omega (arith, v.total, length-values s.content used xs v.values))

  pop_empty : {s : Stack A} → Represents capacity s [] → pop s ≡ (none, s)
  unfolding pop
  pop_empty {s} ([], free, v) = rw (eq→== s.head.index null_index v.stack)
  pop_empty (j ∷ used, free, v) = cc (v.values)

  pop_nonempty :
      (x : A) (xs : List A) {s : Stack A}
      → Represents capacity s (x ∷ xs)
      → ((pop s).0 ≡ some x) × Represents capacity (pop s).1 xs
  pop_nonempty x xs ([], free, v) = cc (v.values)
  pop_nonempty x xs (j ∷ used, free, v) =
      let (e, w) = pop-Holds capacity x j used free xs v in (e, (used, j ∷ free, w))

  -- Any sequence of calls on a stack that holds some values is answered as by the bounded stack of
  -- these values.
  pub run_refines_stack :
      (ops : List (Op A)) (s : Stack A) (xs : List A)
      → Represents capacity s xs
      → run ops s ≡ stack_run ops xs
  unfolding run
  run_refines_stack [] s xs v = refl
  run_refines_stack (pushes x ∷ ops) s xs v = elim (Bool-cases (ltb (length xs) capacity)) [
    | inl room ↦
        let (e, w) = push-room x xs v (ground arith) in
        rw room (ap₂ ◌∷◌ (ap pushed e) (run_refines_stack ops (push x s).1 (x ∷ xs) w))
    | inr full ↦
        let e = push_full x xs v (ground arith) in
        rw (full, e) (ap (◌∷◌ (pushed false)) (run_refines_stack ops s xs v))
  ]
  run_refines_stack (pops ∷ ops) s [] v =
      rw (pop_empty v) (ap (◌∷◌ (popped none)) (run_refines_stack ops s [] v))
  run_refines_stack (pops ∷ ops) s (x ∷ xs) v =
      let (e, w) = pop_nonempty x xs v in
      ap₂ ◌∷◌ (ap popped e) (run_refines_stack ops (pop s).1 xs w)
