-- ===== src/ParallelAlgorithms.antt =====
-- modern_cpp_core/patterns/parallel_algorithms.hpp. A range is a list and an iterator an offset into
-- it. `pool.execute` hands a chunk to the pool, which runs each task once, in an order of its own;
-- the latch is counted down once by each task. `none` is a division by zero.
pub mod Chunks
pub mod Order
mod Tests
use emb_linux.Prelude.{
  ℕ, zero, suc, ◌+◌, ◌-◌, ◌*◌, ◌/◌, ◌%◌, ◌^◌, List, [], ◌∷◌, ◌++◌, map, Option, none, some, ◌==◌,
  if◌then◌else◌, take, drop, length, update,
}

-- `(distance + chunk_size - 1) / chunk_size` in `size_t`.
pub num_chunks : ℕ → ℕ → ℕ
num_chunks distance chunk_size =
    (((distance + chunk_size) % 2 ^ 64 + 2 ^ 64 - 1) % 2 ^ 64) / chunk_size

-- The loop from chunk `i` on, with this many left: the start and the end of each chunk.
pub chunks_from : ℕ → ℕ → ℕ → ℕ → ℕ → List (ℕ × ℕ)
chunks_from zero i count distance chunk_size = []
chunks_from (suc left) i count distance chunk_size =
    (i * chunk_size, if i == count - 1 then distance else i * chunk_size + chunk_size)
    ∷ chunks_from left (suc i) count distance chunk_size

pub chunks : ℕ → ℕ → List (ℕ × ℕ)
unfolding chunks_from num_chunks
chunks distance chunk_size =
    chunks_from (num_chunks distance chunk_size) 0 (num_chunks distance chunk_size) distance
      chunk_size

module _ {ℓ} {A : Type ℓ} where
  -- The elements between two iterators.
  abbrev pub slice : List A → ℕ × ℕ → List A
  slice xs (start, end) = take (end - start) (drop start xs)

  -- The elements that the tasks of `parallel_for_each` hand to `f`, task by task, in the order in
  -- which they were submitted.
  pub for_each_tasks : List A → ℕ → Option (List (List A))
  unfolding chunks
  for_each_tasks xs chunk_size =
      if length xs == 0
      then some []
      else if chunk_size == 0
      then none
      else some (map (slice xs) (chunks (length xs) chunk_size))
