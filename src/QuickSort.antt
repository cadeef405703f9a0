-- ===== src/QuickSort.antt =====
-- C++_ConcurrencyInAction/designConcurrentCode/quickSort.hpp: the sorter with its stack of chunks and
-- their promises, run by one thread, as on a machine for which `max_thread_count` is 0. `operator<`
-- and `std::partition`, which may reorder, are parameters. Promises are numbered in the order of
-- their chunks.
pub mod Sorted
pub mod Sorts
mod Tests
use emb_linux.Prelude.{
  ℕ, zero, suc, List, [], ◌∷◌, ◌++◌, Bool, true, false, Option, none, some, update, ◌>>=◌,
}

-- `chunk_to_sort`, with the number of its promise, and the state that the threads share.
pub record Chunk {ℓ} (T : Type ℓ) : Type ℓ where
  pub contents : List T
  pub promise : ℕ

pub record Sorter {ℓ} (T : Type ℓ) : Type ℓ where
  pub chunks : List (Chunk T)
  pub results : ℕ → Option (List T)
  pub next_promise : ℕ

abbrev pub new_sorter {ℓ} : {T : Type ℓ} → Sorter T
new_sorter = record { chunks = []; results = λ i. none; next_promise = 0 }

module _ {ℓ} {T : Type ℓ} where
  -- `chunks.push` of a chunk with a new promise.
  pub push_chunk : List T → Sorter T → Sorter T
  push_chunk contents s = record s {
    chunks = record { contents = contents; promise = s.next_promise } ∷ s.chunks;
    next_promise = suc s.next_promise;
  }

  -- `thread_safe_stack::pop`
  pub pop_chunk : List (Chunk T) → Option (Chunk T × List (Chunk T))
  pop_chunk [] = none
  pop_chunk (c ∷ rest) = some (c, rest)

  -- `promise.set_value`
  pub set_value : ℕ → List T → Sorter T → Sorter T
  set_value i result s = record s { results = update s.results i (some result) }

module _ {ℓ} {T : Type ℓ} (less : T → T → Bool)
    (partition : (T → Bool) → List T → List T × List T) where
  -- `none` is the fuel that has run out. `wait_for` is the loop of step 6, which sorts the chunk on
  -- top of the stack (`try_sort_chunk`, `sort_chunk`) until the promise `i` is fulfilled.
  mutual
    unfolding push_chunk pop_chunk set_value

    pub do_sort : ℕ → List T → Sorter T → Option (List T × Sorter T)
    do_sort zero chunk s = none
    do_sort (suc fuel) [] s = some ([], s)
    do_sort (suc fuel) (pivot ∷ rest) s =
        do_sort fuel (partition (λ x. less x pivot) rest).1
          (push_chunk (partition (λ x. less x pivot) rest).0 s)
        >>= λ h. wait_for fuel s.next_promise h.1 >>= λ l. some (l.0 ++ (pivot ∷ h.0), l.1)

    pub wait_for : ℕ → ℕ → Sorter T → Option (List T × Sorter T)
    wait_for zero i s = none
    wait_for (suc fuel) i s = elim (s.results i) [
      | some result ↦ some (result, s)
      | none ↦ elim (pop_chunk s.chunks) [
        | none ↦ wait_for fuel i s
        | some (c, below) ↦ do_sort fuel c.contents (record s { chunks = below }) >>= λ r.
            wait_for fuel i (set_value c.promise r.0 r.1)
      ]
    ]

  pub parallel_quick_sort : ℕ → List T → Option (List T)
  unfolding do_sort
  parallel_quick_sort fuel [] = some []
  parallel_quick_sort fuel (x ∷ xs) = do_sort fuel (x ∷ xs) new_sorter >>= λ r. some r.0
