-- ===== src/CoroutinePool/Blocks.antt =====
-- The block size and the free list that `init` of coroutine_pool.cpp sets up.
use emb_linux.Prelude.{
  ℕ, zero, suc, ◌+◌, ◌*◌, ◌%◌, ◌^◌, ◌≤◌, ◌<◌, ◌≡◌, refl, sym, ap, subst, ◌∙◌, List, [], ◌∷◌, arith,
  update, update_self, update_ne, length,
}
use emb_linux.Chain.{Chain, NotIn, Distinct}
use emb_linux.CoroutinePool.{block_header, max_align, rounded_size, link_blocks}

pub rounded_size-fits :
    (n : ℕ) → n + max_align < 2 ^ 64 → (n ≤ rounded_size n) × (block_header ≤ rounded_size n)
unfolding rounded_size
rounded_size-fits n small = ground arith

-- When the size with an alignment more does not wrap: the block size holds the size that was asked for and
-- a header and is a multiple of the alignment, and it is at most any other number `m` like that. So it is
-- the least of them.
pub rounded_size_lem :
    (n m : ℕ)
    → n + max_align < 2 ^ 64
    → n ≤ m
    → block_header ≤ m
    → m % max_align ≡ 0
    → (n ≤ rounded_size n)
      × (block_header ≤ rounded_size n)
      × (rounded_size n % max_align ≡ 0)
      × (rounded_size n ≤ m)
unfolding rounded_size
rounded_size_lem n m small a b c = ground arith

-- The addresses of `n` blocks from block `i` on.
abbrev pub blocks : ℕ → ℕ → ℕ → ℕ → List ℕ
blocks buffer size i zero = []
blocks buffer size i (suc n) = (buffer + i * size) ∷ blocks buffer size (suc i) n

pub length-blocks : (buffer size i n : ℕ) → length (blocks buffer size i n) ≡ n
length-blocks buffer size i zero = refl
length-blocks buffer size i (suc n) = ap suc (length-blocks buffer size (suc i) n)

pub NotIn-blocks :
    (buffer size i j n : ℕ) → 0 < size → j < i → NotIn (buffer + j * size) (blocks buffer size i n)
NotIn-blocks buffer size i j zero s h = tt
NotIn-blocks buffer size i j (suc n) s h =
    ((λ e. grind arith), NotIn-blocks buffer size (suc i) j n s (omega arith))

pub Distinct-blocks : (buffer size i n : ℕ) → 0 < size → Distinct (blocks buffer size i n)
Distinct-blocks buffer size i zero s = tt
Distinct-blocks buffer size i (suc n) s =
    (NotIn-blocks buffer size (suc i) i n s (omega arith), Distinct-blocks buffer size (suc i) n s)

-- The links written from block `i` on leave an earlier block's link alone.
link_blocks_before :
    (left i buffer size j k : ℕ) (next : ℕ → ℕ)
    → 0 < size
    → j < k
    → k < i
    → link_blocks left i buffer size (buffer + k * size) next (buffer + j * size)
      ≡ next (buffer + j * size)
unfolding link_blocks
link_blocks_before zero i buffer size j k next s a b =
    update_ne next (buffer + k * size) (buffer + j * size) 0 (λ e. grind arith)
link_blocks_before (suc left) i buffer size j k next s a b =
    link_blocks_before left (suc i) buffer size j i
      (update next (buffer + k * size) (buffer + i * size)) s (omega arith) (omega arith)
    ∙ update_ne next (buffer + k * size) (buffer + j * size) (buffer + i * size) (λ e. grind arith)

-- The free list runs through the blocks in the order of their addresses.
pub link_blocks-Chain :
    (left i buffer size : ℕ) (next : ℕ → ℕ)
    → 0 < buffer
    → 0 < size
    → Chain 0
        (link_blocks left (suc i) buffer size (buffer + i * size) next)
        (buffer + i * size)
        (blocks buffer size i (suc left))
unfolding link_blocks
link_blocks-Chain zero i buffer size next b s =
    (refl, (λ e. omega arith), update_self next (buffer + i * size) 0)
link_blocks-Chain (suc left) i buffer size next b s = (
  refl,
  (λ e. omega arith),
  subst
      (λ k.
        Chain 0
          (link_blocks left (suc (suc i)) buffer size (buffer + suc i * size)
            (update next (buffer + i * size) (buffer + suc i * size)))
          k (blocks buffer size (suc i) (suc left)))
      (sym (
        link_blocks_before left (suc (suc i)) buffer size i (suc i)
          (update next (buffer + i * size) (buffer + suc i * size)) s (omega arith) (omega arith)
        ∙ update_self next (buffer + i * size) (buffer + suc i * size)))
      (link_blocks-Chain left (suc i) buffer size
        (update next (buffer + i * size) (buffer + suc i * size)) b s),
)
