-- ===== src/CoroutinePool/Tests.antt =====
-- Runs of coroutine_pool.cpp, and its theorems at concrete inputs.
use emb_linux.Prelude.{
  ◌^◌, List, ℕ, ◌%◌, ◌≤◌, ◌<◌, ◌≡◌, ◌⊎◌, refl, [], ◌∷◌, none, some, true, false, arith,
}
use emb_linux.CoroutinePool.{Pool, max_align, block_header, rounded_size, init, allocate}
use emb_linux.CoroutinePool.Blocks.{blocks, rounded_size_lem}
use emb_linux.CoroutinePool.Programs.{Use, allocates, frees, Shares, run, run-Shares}
use emb_linux.CoroutinePool.Laws.{Owns, allocate_fails_iff}

abbrev off : Pool
off = record {
  memory_buffer = 0;
  free_list = 0;
  block_size = 0;
  initialized = false;
  next = λ a. 0;
}

rounded_size_lem_example :
    (100 ≤ rounded_size 100)
    × (block_header ≤ rounded_size 100)
    × (rounded_size 100 % max_align ≡ 0)
    × (rounded_size 100 ≤ 112)
rounded_size_lem_example = rounded_size_lem 100 112 (omega arith) (omega arith) (omega arith) refl

-- The size of 2 ^ 60 blocks of 16 bytes wraps to 0.
size_wraps : init (2 ^ 60) 16 4096 off ≡ none
unfolding init rounded_size
size_wraps = ground arith

-- Two blocks of 112 bytes, the second of them live.
abbrev one_live : Pool
one_live = record {
  memory_buffer = 4096;
  free_list = 4096;
  block_size = 112;
  initialized = true;
  next = λ a. 0;
}

one_live-Owns : Owns 2 one_live (4096 ∷ []) (4208 ∷ [])
one_live-Owns = record {
  ready = refl;
  chain = (refl, (λ e. omega arith), refl);
  free_once = (tt, tt);
  live_once = (tt, tt);
  apart = (((λ e. omega arith), tt), tt);
  total = refl;
}

allocate_fails_iff_example :
    (allocate 200 one_live ≡ none → (true ≡ false) ⊎ ((112 < 200) ⊎ (◌≡◌ {A = ℕ} 1 2)))
    × ((true ≡ false) ⊎ ((112 < 200) ⊎ (◌≡◌ {A = ℕ} 1 2)) → allocate 200 one_live ≡ none)
allocate_fails_iff_example = allocate_fails_iff 200 (4096 ∷ []) (4208 ∷ []) (λ on. one_live-Owns)

-- Both blocks are handed out, a third allocation fails, the first block comes back and is handed out.
abbrev uses : List Use
uses = allocates 80 ∷ allocates 50 ∷ allocates 50 ∷ frees 1 ∷ allocates 90 ∷ []

run-Shares_example :
    (q : Pool) × (init 2 100 4096 off ≡ some q)
    × (free : List ℕ) × Shares
        (blocks 4096 (rounded_size 100) 0 2)
        2
        (run uses (record { pool = q; live = [] }))
        free
unfolding rounded_size
run-Shares_example = run-Shares 1 100 4096 off uses refl (omega arith) (omega arith) (omega arith)
