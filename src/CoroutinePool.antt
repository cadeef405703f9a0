-- ===== src/CoroutinePool.antt =====
-- modern_cpp_core/coroutines/coroutine_pool.cpp: the pool of equal blocks with an intrusive free
-- list. Addresses are numbers, 0 is null, and `next` is the first word of the block at an address.
-- Each call holds the spinlock throughout. The address that `new[]` returns is a parameter.
pub mod Blocks
pub mod Laws
pub mod Programs
mod Tests
use emb_linux.Prelude.{
  ℕ, zero, suc, ◌+◌, ◌-◌, ◌*◌, ◌%◌, ◌^◌, Bool, true, false, Option, none, some, ◌==◌, ltb, not,
  ◌||◌, if◌then◌else◌, update,
}

-- `sizeof(Block)` and `alignof(std::max_align_t)` of a 64-bit target.
abbrev pub block_header : ℕ
block_header = 8

abbrev pub max_align : ℕ
max_align = 16

pub record Pool : Type 0 where
  pub memory_buffer : ℕ
  pub free_list : ℕ
  pub block_size : ℕ
  pub initialized : Bool
  pub next : ℕ → ℕ

-- `s_block_size`: at least a header, then `(n + 15) & ~15` in `size_t`.
pub rounded_size : ℕ → ℕ
rounded_size n =
    let m = (if ltb n block_header then block_header else n) in
    let padded = (m + max_align - 1) % 2 ^ 64 in padded - padded % max_align

-- The loop of `init` from block `i` on, with this many blocks left, and the store after it.
pub link_blocks : ℕ → ℕ → ℕ → ℕ → ℕ → (ℕ → ℕ) → ℕ → ℕ
link_blocks zero i buffer size current next = update next current 0
link_blocks (suc left) i buffer size current next =
    link_blocks left (suc i) buffer size (buffer + i * size)
      (update next current (buffer + i * size))

-- The size of the buffer is a `size_t`, so that the product wraps. `none` is a write outside the buffer:
-- the last store, to the first word of the last block, is outside it exactly when some store is, which is
-- so when there are no blocks or the product wraps.
pub init : ℕ → ℕ → ℕ → Pool → Option Pool
unfolding rounded_size link_blocks
init max_coroutines block_size buffer p =
    if p.initialized
    then some p
    else if ltb (max_coroutines * rounded_size block_size % 2 ^ 64)
        ((max_coroutines - 1) * rounded_size block_size + block_header)
    then none
    else some (record p {
      memory_buffer = buffer;
      free_list = buffer;
      block_size = rounded_size block_size;
      initialized = true;
      next = link_blocks (max_coroutines - 1) 1 buffer (rounded_size block_size) buffer p.next;
    })

pub destroy : Pool → Pool
destroy p =
    if p.initialized then record p { memory_buffer = 0; free_list = 0; initialized = false } else p

-- `none` is `std::bad_alloc`.
pub allocate : ℕ → Pool → Option (ℕ × Pool)
allocate size p =
    if not p.initialized
    then none
    else if ltb p.block_size size
    then none
    else if p.free_list == 0
    then none
    else some (p.free_list, record p { free_list = p.next p.free_list })

pub deallocate : ℕ → Pool → Pool
deallocate ptr p =
    if ptr == 0 || not p.initialized
    then p
    else record p { next = update p.next ptr p.free_list; free_list = ptr }
