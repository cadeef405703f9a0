-- ===== src/ParallelAlgorithms/Chunks.antt =====
-- The chunks of parallel_algorithms.hpp and the range.
use emb_linux.Prelude.{
  ℕ, zero, suc, ◌+◌, ◌-◌, ◌*◌, ◌/◌, ◌%◌, ◌^◌, ◌≤◌, ◌<◌, ◌≡◌, refl, sym, ap, ap₂, subst, ◌∙◌, inl,
  inr, List, [], ◌∷◌, ◌++◌, map, some, ◌==◌, take, drop, length, length-drop, take_all,
  take-append-drop, drop_add, drop_all, Bool-cases, arith, append-nil,
}
use emb_linux.ParallelAlgorithms.{num_chunks, chunks_from, chunks, slice, for_each_tasks}

ceiling : (d c : ℕ) → 0 < d → 0 < c → (d ≤ ((d + c - 1) / c) * c) × (0 < (d + c - 1) / c)
ceiling d c a b = grind arith

-- Without wrap-around the chunks reach the end, and a range that is not empty has one.
num_chunks-covers :
    (distance chunk_size : ℕ)
    → 0 < distance
    → 0 < chunk_size
    → distance + chunk_size < 2 ^ 64
    → (distance ≤ num_chunks distance chunk_size * chunk_size)
      × (0 < num_chunks distance chunk_size)
unfolding num_chunks
num_chunks-covers d c a b room =
    subst (λ k. (d ≤ (k / c) * c) × (0 < k / c)) numerator (ceiling d c a b)
  where
    numerator : d + c - 1 ≡ ((d + c) % 2 ^ 64 + 2 ^ 64 - 1) % 2 ^ 64
    numerator = omega arith

-- When the sum of the two wraps, there is no chunk at all.
num_chunks_wrapped :
    (distance chunk_size : ℕ)
    → distance < 2 ^ 63
    → 0 < distance
    → chunk_size < 2 ^ 64
    → 2 ^ 64 < distance + chunk_size
    → num_chunks distance chunk_size ≡ 0
unfolding num_chunks
num_chunks_wrapped d c a a' b wraps =
    numerator_small (((d + c) % 2 ^ 64 + 2 ^ 64 - 1) % 2 ^ 64) (omega arith)
  where
    numerator_small : (k : ℕ) → k < c → k / c ≡ 0
    numerator_small k h = grind arith

module _ {ℓ} {A : Type ℓ} where
  unfoldable pub concat : List (List A) → List A
  concat [] = []
  concat (xs ∷ xss) = xs ++ concat xss

  concat-chunks_from :
      (left i count chunk_size : ℕ) (xs : List A)
      → i + left ≡ count
      → length xs ≤ count * chunk_size
      → concat (map (slice xs) (chunks_from left i count (length xs) chunk_size))
        ≡ drop (i * chunk_size) xs
  unfolding concat chunks_from
  concat-chunks_from zero i count c xs e h =
      sym (drop_all (i * c) xs (subst (λ k. length xs ≤ k * c) (omega arith) h))
  concat-chunks_from (suc left) i count c xs e h =
      let rest = concat-chunks_from left (suc i) count c xs (omega arith) h in
      elim (Bool-cases (i == count - 1)) [
        | inl last ↦ rw last (
            ap₂ ◌++◌
              (take_all (length xs - i * c) (drop (i * c) xs)
                (omega (arith, length-drop (i * c) xs)))
              (rest
                ∙ drop_all (suc i * c) xs (subst (λ k. length xs ≤ k * c) (ground (arith, last)) h))
            ∙ append-nil (drop (i * c) xs))
        | inr more ↦ rw more (
            ap₂ (λ k ys. take k (drop (i * c) xs) ++ ys) width
              (rest ∙ ap (λ k. drop k xs) next ∙ drop_add (i * c) c xs)
            ∙ take-append-drop c (drop (i * c) xs))
      ]
    where
      width : i * c + c - i * c ≡ c
      width = omega arith

      next : suc i * c ≡ i * c + c
      next = omega arith

  -- With a chunk size that is not zero and does not wrap the sum with the size of the range, the
  -- tasks of `parallel_for_each`, taken in the order of their submission, hand every element to
  -- the function once, in its order.
  pub for_each_covers :
      (xs : List A) (chunk_size : ℕ)
      → 0 < chunk_size
      → length xs + chunk_size < 2 ^ 64
      → (tasks : List (List A)) × (for_each_tasks xs chunk_size ≡ some tasks) × (concat tasks ≡ xs)
  unfolding for_each_tasks chunks concat
  for_each_covers [] c a b = ([], refl, refl)
  for_each_covers (x ∷ xs) c a b = (
    map (slice (x ∷ xs)) (chunks (length (x ∷ xs)) c),
    ground (arith),
    concat-chunks_from (num_chunks (length (x ∷ xs)) c) 0 (num_chunks (length (x ∷ xs)) c) c
          (x ∷ xs) (omega arith) (num_chunks-covers (length (x ∷ xs)) c (omega arith) a b).0
        ∙ start,
  )
    where
      start : drop (0 * c) (x ∷ xs) ≡ x ∷ xs
      start = let z : 0 * c ≡ 0 = omega arith in ap (λ k. drop k (x ∷ xs)) z

  -- When the number of elements and the chunk size add up to more than 2 ^ 64, the sum wraps, and
  -- `parallel_for_each` over a range that is not empty returns without a single task.
  pub for_each_skips :
      (xs : List A) (chunk_size : ℕ)
      → 0 < length xs
      → length xs < 2 ^ 63
      → chunk_size < 2 ^ 64
      → 2 ^ 64 < length xs + chunk_size
      → for_each_tasks xs chunk_size ≡ some []
  unfolding for_each_tasks chunks chunks_from
  for_each_skips xs c a b d e = ground (arith, num_chunks_wrapped (length xs) c)
