-- ===== src/QuickSort/Sorts.antt =====
-- The runs of quickSort.hpp on enough fuel.
use emb_linux.Prelude.{
  ℕ, zero, suc, ◌+◌, ◌*◌, ◌≤◌, ◌<◌, ◌≡◌, refl, ap, ◌∙◌, List, [], ◌∷◌, ◌++◌, Bool, true, not,
  Option, none, some, ◌>>=◌, arith, count, count-append, length, update_self, update_ne,
}
use emb_linux.QuickSort.{
  Chunk, Sorter, new_sorter, push_chunk, pop_chunk, set_value, do_sort, wait_for,
  parallel_quick_sort,
}
use emb_linux.QuickSort.Sorted.{IsSorted, IsStrict, append-IsSorted}

module _ {ℓ} {T : Type ℓ} (less : T → T → Bool)
    (partition : (T → Bool) → List T → List T × List T) where
  do_sort-nil : (fuel : ℕ) (s : Sorter T) → do_sort less partition (suc fuel) [] s ≡ some ([], s)
  unfolding do_sort
  do_sort-nil fuel s = refl

  -- One round of each loop.
  do_sort-cons :
      (fuel : ℕ) (pivot : T) (rest : List T) (s : Sorter T)
      → do_sort less partition (suc fuel) (pivot ∷ rest) s ≡ (
          do_sort less partition fuel
            (partition (λ x. less x pivot) rest).1
            (push_chunk (partition (λ x. less x pivot) rest).0 s)
          >>= λ h. wait_for less partition fuel s.next_promise h.1 >>= λ l.
              some (l.0 ++ (pivot ∷ h.0), l.1))
  unfolding do_sort
  do_sort-cons fuel pivot rest s = refl

  wait_for-ready :
      (fuel i : ℕ) (result : List T) (s : Sorter T)
      → s.results i ≡ some result
      → wait_for less partition (suc fuel) i s ≡ some (result, s)
  unfolding wait_for
  wait_for-ready fuel i result s e = rw (e, wait_for)

  wait_for-pops :
      (fuel i : ℕ) (c : Chunk T) (below : List (Chunk T)) (s : Sorter T)
      → s.results i ≡ none
      → s.chunks ≡ c ∷ below
      → wait_for less partition (suc fuel) i s ≡ (
          do_sort less partition fuel c.contents (record s { chunks = below }) >>= λ r.
          wait_for less partition fuel i (set_value c.promise r.0 r.1))
  unfolding wait_for pop_chunk
  wait_for-pops fuel i c below s e f =
      ap
        (λ o. elim o [
          | some result ↦ some (result, s)
          | none ↦ elim (pop_chunk s.chunks) [
            | none ↦ wait_for less partition fuel i s
            | some (d, rest) ↦
                do_sort less partition fuel d.contents (record s { chunks = rest }) >>= λ r.
                wait_for less partition fuel i (set_value d.promise r.0 r.1)
          ]
        ])
        e
      ∙ ap
          (λ cs. elim (pop_chunk cs) [
            | none ↦ wait_for less partition fuel i s
            | some (d, rest) ↦
                do_sort less partition fuel d.contents (record s { chunks = rest }) >>= λ r.
                wait_for less partition fuel i (set_value d.promise r.0 r.1)
          ])
          f

-- What `std::partition` promises: it moves the elements that pass the test before the others.
pub record IsPartition {ℓ} {T : Type ℓ} (partition : (T → Bool) → List T → List T × List T)
    : Type ℓ where
  pub same :
      (p q : T → Bool) (xs : List T)
      → count q (partition p xs).0 + count q (partition p xs).1 ≡ count q xs
  pub first_pass : (p : T → Bool) (xs : List T) → count (λ x. not (p x)) (partition p xs).0 ≡ 0
  pub others_fail : (p : T → Bool) (xs : List T) → count p (partition p xs).1 ≡ 0

count-all {ℓ} : {T : Type ℓ} (xs : List T) → count (λ x. true) xs ≡ length xs
count-all [] = refl
count-all (x ∷ xs) = omega (arith, count-all xs)

module _ {ℓ} {T : Type ℓ} (less : T → T → Bool) (partition : (T → Bool) → List T → List T × List T)
    (o : IsStrict less) (parts : IsPartition partition) where
  -- A list in order, with the elements of another, each as often.
  pub record SortOf (xs ys : List T) : Type ℓ where
    pub sorted : IsSorted less ys
    pub same : (q : T → Bool) → count q ys ≡ count q xs

  -- No promise that is still to be made is fulfilled.
  abbrev IsFresh : Sorter T → Type ℓ
  IsFresh s = (i : ℕ) → s.next_promise ≤ i → s.results i ≡ none

  -- A call keeps the stack and the earlier promises.
  record Keeps (s t : Sorter T) : Type ℓ where
    chunks : t.chunks ≡ s.chunks
    earlier : (i : ℕ) → i < s.next_promise → t.results i ≡ s.results i
    grows : s.next_promise ≤ t.next_promise
    fresh : (i : ℕ) → t.next_promise ≤ i → t.results i ≡ none

  Sorts : List T → Sorter T → Option (List T × Sorter T) → Type ℓ
  Sorts xs s r = (ys : List T) × (t : Sorter T) × (r ≡ some (ys, t)) × SortOf xs ys × Keeps s t

  length-parts :
      (p : T → Bool) (xs : List T)
      → length (partition p xs).0 + length (partition p xs).1 ≡ length xs
  length-parts p xs = omega (
    arith,
    parts.same p (λ x. true) xs,
    count-all (partition p xs).0,
    count-all (partition p xs).1,
    count-all xs,
  )

  -- Step 7: the sorted parts around the pivot.
  combine :
      (pivot : T) (rest lower higher : List T)
      → SortOf (partition (λ x. less x pivot) rest).0 lower
      → SortOf (partition (λ x. less x pivot) rest).1 higher
      → SortOf (pivot ∷ rest) (lower ++ (pivot ∷ higher))
  combine pivot rest lower higher a b =
      let test : T → Bool = λ x. less x pivot in
      record {
        sorted =
            append-IsSorted less o pivot lower higher a.sorted b.sorted
              (a.same (λ x. not (test x)) ∙ parts.first_pass test rest)
              (b.same test ∙ parts.others_fail test rest);
        same = λ q. omega (
          arith,
          count-append q lower (pivot ∷ higher),
          a.same q,
          b.same q,
          parts.same test q rest,
        );
      }

  -- Step 6, when the chunk of the promise is on top of the stack.
  waits :
      (g i : ℕ) (lower ys : List T) (below : List (Chunk T)) (s t : Sorter T)
      → s.results i ≡ none
      → s.chunks ≡ record { contents = lower; promise = i } ∷ below
      → do_sort less partition (suc g) lower (record s { chunks = below }) ≡ some (ys, t)
      → wait_for less partition (suc (suc g)) i s ≡ some (ys, set_value i ys t)
  unfolding set_value
  waits g i lower ys below s t e c d =
      wait_for-pops less partition (suc g) i (record { contents = lower; promise = i }) below s e c
      ∙ ap (λ o. o >>= λ r. wait_for less partition (suc g) i (set_value i r.0 r.1)) d
      ∙ wait_for-ready less partition g i ys (set_value i ys t) (update_self t.results i (some ys))

  keeps :
      (s : Sorter T) (chunk lower : List T) (t1 t2 : Sorter T)
      → Keeps (push_chunk chunk s) t1
      → Keeps (record t1 { chunks = s.chunks }) t2
      → Keeps s (set_value s.next_promise lower t2)
  unfolding push_chunk set_value
  keeps s chunk lower t1 t2 k1 k2 = record {
    chunks = k2.chunks;
    earlier = λ i a.
        update_ne t2.results s.next_promise i (some lower) (λ e. omega (arith, e, a))
        ∙ k2.earlier i (omega (arith, a, k1.grows))
        ∙ k1.earlier i (omega (arith, a));
    grows = omega (arith, k1.grows, k2.grows);
    fresh = λ i a.
        update_ne t2.results s.next_promise i (some lower)
          (λ e. omega (arith, e, a, k1.grows, k2.grows))
        ∙ k2.fresh i a;
  }

  sorts :
      (fuel : ℕ) (xs : List T) (s : Sorter T)
      → IsFresh s
      → 2 * length xs < fuel
      → Sorts xs s (do_sort less partition fuel xs s)
  unfolding Sorts push_chunk set_value
  sorts zero xs s f l = absurd (omega (arith, l))
  sorts (suc fuel) [] s f l = (
    [],
    s,
    do_sort-nil less partition fuel s,
    record { sorted = tt; same = λ q. refl },
    record { chunks = refl; earlier = λ i a. refl; grows = omega arith; fresh = f },
  )
  sorts (suc zero) (pivot ∷ rest) s f l = absurd (omega (arith, l))
  sorts (suc (suc zero)) (pivot ∷ rest) s f l = absurd (omega (arith, l))
  sorts (suc (suc (suc g))) (pivot ∷ rest) s f l =
      let test : T → Bool = λ x. less x pivot in
      let parted = length-parts test rest in
      let s1 = push_chunk (partition test rest).0 s in
      let (higher, t1, e1, sorted_higher, k1) =
        sorts (suc (suc g)) (partition test rest).1 s1 (λ i a. f i (omega (arith, a)))
          (omega (arith, l, parted)) in
      let (lower, t2, e2, sorted_lower, k2) =
        sorts (suc g) (partition test rest).0 (record t1 { chunks = s.chunks }) k1.fresh
          (omega (arith, l, parted)) in
      let own : (j : ℕ) → s.next_promise ≤ j → j < suc s.next_promise → t1.results j ≡ none =
        λ j a b. k1.earlier j b ∙ f j a in
      let w =
        waits g s.next_promise (partition test rest).0 lower s.chunks t1 t2
          (own s.next_promise (omega arith) (omega arith)) k1.chunks e2 in
      (
        lower ++ (pivot ∷ higher),
        set_value s.next_promise lower t2,
        do_sort-cons less partition (suc (suc g)) pivot rest s
            ∙ ap
                (λ o. o >>= λ h. wait_for less partition (suc (suc g)) s.next_promise h.1 >>= λ l.
                  some (l.0 ++ (pivot ∷ h.0), l.1))
                e1
            ∙ ap (λ o. o >>= λ l. some (l.0 ++ (pivot ∷ higher), l.1)) w,
        combine pivot rest lower higher sorted_lower sorted_higher,
        keeps s (partition test rest).0 lower t1 t2 k1 k2,
      )

  -- Where `operator<` is a strict order and `std::partition` does what it promises, the sort returns,
  -- with fuel twice the length and one, a list in order that has each element as often as the input.
  pub parallel_quick_sort_sorts :
      (xs : List T)
      → (ys : List T) × (parallel_quick_sort less partition (suc (2 * length xs)) xs ≡ some ys)
        × IsSorted less ys
        × ((q : T → Bool) → count q ys ≡ count q xs)
  unfolding parallel_quick_sort Sorts
  parallel_quick_sort_sorts [] = ([], refl, tt, λ q. refl)
  parallel_quick_sort_sorts (x ∷ xs) =
      let (ys, t, e, h, k) =
        sorts (suc (2 * length (x ∷ xs))) (x ∷ xs) new_sorter (λ i a. refl) (omega arith) in
      (ys, ap (λ o. o >>= λ r. some r.0) e, h.sorted, h.same)
