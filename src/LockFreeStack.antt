-- ===== src/LockFreeStack.antt =====
-- modern_cpp_core/data_structures/lock_free_stack.hpp: the bounded stack over a pool of nodes, with
-- a free list and tagged heads. The arrays are functions of the index. The calls are run alone, so
-- that each compare-exchange succeeds; a spurious failure only repeats it.
pub mod Laws
pub mod Refine
pub mod New
mod Tests
use emb_linux.Prelude.{
  ℕ, zero, suc, ◌+◌, ◌-◌, ◌%◌, ◌^◌, Bool, true, false, Option, none, some, ◌==◌, if◌then◌else◌,
  update,
}

abbrev pub null_index : ℕ
null_index = 0xffffffff

pub record TaggedIndex : Type 0 where
  pub index : ℕ  -- uint32_t
  pub tag : ℕ  -- uint32_t

-- The next tag wraps after 2 ^ 32 changes.
abbrev pub next_tag : ℕ → ℕ
next_tag t = (t + 1) % 2 ^ 32

-- `m_pool` as the array of its `data` and of its `next`.
pub record Stack {ℓ} (A : Type ℓ) : Type ℓ where
  pub content : ℕ → Option A
  pub next : ℕ → ℕ
  pub head : TaggedIndex
  pub free_head : TaggedIndex

-- The loop of the constructor, from index `i` on, with this many indices left.
pub link_from : ℕ → ℕ → (ℕ → ℕ) → ℕ → ℕ
link_from zero i next = next
link_from (suc left) i next = link_from left (suc i) (update next i (i + 1))

module _ {ℓ} {A : Type ℓ} where
  -- `Capacity - 1` is taken in `size_t`; a capacity of 0 is not modelled.
  pub new : ℕ → Stack A
  unfolding link_from
  new capacity = record {
    content = λ i. none;
    next = update (link_from (capacity - 1) 0 (λ i. null_index)) (capacity - 1) null_index;
    head = record { index = null_index; tag = 0 };
    free_head = record { index = 0; tag = 0 };
  }

  pub push : A → Stack A → Bool × Stack A
  push value s = if s.free_head.index == null_index then (false, s) else (
    true,
    record {
      content = update s.content s.free_head.index (some value);
      next = update s.next s.free_head.index s.head.index;
      head = record { index = s.free_head.index; tag = next_tag s.head.tag };
      free_head = record { index = s.next s.free_head.index; tag = next_tag s.free_head.tag };
    },
  )

  pub pop : Stack A → Option A × Stack A
  pop s = if s.head.index == null_index then (none, s) else (
    s.content s.head.index,
    record {
      content = update s.content s.head.index none;
      next = update s.next s.head.index s.free_head.index;
      head = record { index = s.next s.head.index; tag = next_tag s.head.tag };
      free_head = record { index = s.head.index; tag = next_tag s.free_head.tag };
    },
  )
