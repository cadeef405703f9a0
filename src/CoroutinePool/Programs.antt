-- ===== src/CoroutinePool/Programs.antt =====
-- Programs over coroutine_pool.cpp: any sequence of allocations and deallocations after init.
use emb_linux.Prelude.{
  ◌*◌, ◌≤◌, ltb→lt, Bool-cases, inl, inr, bit, ℕ, zero, suc, ◌+◌, ◌^◌, ◌<◌, ◌≡◌, refl, ap, sym,
  List, [], ◌∷◌, Bool, false, Option, none, some, some_inj, arith, count,
}
use emb_linux.Chain.{NotIn}
use emb_linux.CoroutinePool.{ltb, Pool, max_align, rounded_size, init, allocate, deallocate}
use emb_linux.CoroutinePool.Blocks.{blocks}
use emb_linux.CoroutinePool.Laws.{
  allocate_fails_iff, Owns, without, at, NotIn-without, at_nonzero, allocate-Owns, deallocate-Owns,
  init-Owns,
}

-- A coroutine frame of a size is allocated, or the frame at a place among the live ones is freed.
pub data Use : Type 0 where
  allocates : (size : ℕ) → Use
  frees : (k : ℕ) → Use

-- A pool, and the blocks that it has handed out and not got back.
pub record Users : Type 0 where
  pub pool : Pool
  pub live : List ℕ

-- `none` is std::bad_alloc, which leaves the pool as it is.
abbrev pub handed_out : Option (ℕ × Pool) → Users → Users
handed_out none u = u
handed_out (some (j, q)) u = record { pool = q; live = j ∷ u.live }

abbrev pub given_back : ℕ → Option ℕ → Users → Users
given_back k none u = u
given_back k (some j) u = record { pool = deallocate j u.pool; live = without k u.live }

pub serve : Use → Users → Users
serve (allocates size) u = handed_out (allocate size u.pool) u
serve (frees k) u = given_back k (at k u.live) u

pub run : List Use → Users → Users
unfolding serve
run [] u = u
run (c ∷ cs) u = run cs (serve c u)

-- A block is free or live, whichever test picks it out of those that init made.
pub record Shares (all : List ℕ) (n : ℕ) (u : Users) (free : List ℕ) : Type 0 where
  pub owns : Owns n u.pool free u.live
  pub not_null : NotIn 0 u.live
  pub parts : (test : ℕ → Bool) → count test free + count test u.live ≡ count test all

count-without :
    (test : ℕ → Bool) (k j : ℕ) (xs : List ℕ)
    → at k xs ≡ some j
    → count test xs ≡ bit (test j) + count test (without k xs)
count-without test k j [] e = cc
count-without test zero j (x ∷ xs) e = omega (arith, ap (λ y. bit (test y)) (some_inj e))
count-without test (suc k) j (x ∷ xs) e = omega (arith, count-without test k j xs e)

module _ {all : List ℕ} {n : ℕ} (u : Users) where
  fails-Shares :
      (size : ℕ) (free : List ℕ)
      → allocate size u.pool ≡ none
      → Shares all n u free
      → (free' : List ℕ) × Shares all n (handed_out (allocate size u.pool) u) free'
  fails-Shares size free e v = (free, rw e v)

  allocates-Shares :
      (size : ℕ) (free : List ℕ)
      → Shares all n u free
      → (free' : List ℕ) × Shares all n (handed_out (allocate size u.pool) u) free'
  allocates-Shares size [] v =
      fails-Shares size []
        ((allocate_fails_iff size [] u.live (λ on. v.owns)).1
          (inr (inr (omega (arith, v.owns.total)))))
        v
  allocates-Shares size (j ∷ free) v = elim (Bool-cases (ltb u.pool.block_size size)) [
    | inl e ↦
        fails-Shares size (j ∷ free)
          ((allocate_fails_iff size (j ∷ free) u.live (λ on. v.owns)).1
            (inr (inl (ltb→lt u.pool.block_size size e))))
          v
    | inr h ↦
        let (q, e, new, owns) = allocate-Owns size j free u.live v.owns (ground arith) in
        (
          free,
          rw e (record {
            owns = owns;
            not_null = ((λ f. v.owns.chain.1 (sym f)), v.not_null);
            parts = λ test. omega (arith, v.parts test);
          }),
        )
  ]

  frees-Shares :
      (k : ℕ) (free : List ℕ) (o : Option ℕ)
      → at k u.live ≡ o
      → Shares all n u free
      → (free' : List ℕ) × Shares all n (given_back k o u) free'
  frees-Shares k free none e v = (free, v)
  frees-Shares k free (some j) e v = (
    j ∷ free,
    record {
      owns = deallocate-Owns k j free u.live v.owns e (at_nonzero k j u.live v.not_null e);
      not_null = NotIn-without k 0 u.live v.not_null;
      parts = λ test. omega (arith, v.parts test, count-without test k j u.live e);
    },
  )

  serve-Shares :
      (c : Use) (free : List ℕ)
      → Shares all n u free
      → (free' : List ℕ) × Shares all n (serve c u) free'
  unfolding serve
  serve-Shares (allocates size) free v = allocates-Shares size free v
  serve-Shares (frees k) free v = frees-Shares k free (at k u.live) refl v

run-Shares_from :
    {all : List ℕ} {n : ℕ} (cs : List Use) (u : Users) (free : List ℕ)
    → Shares all n u free
    → (free' : List ℕ) × Shares all n (run cs u) free'
unfolding run
run-Shares_from [] u free v = (free, v)
run-Shares_from (c ∷ cs) u free v =
    let (free', v') = serve-Shares u c free v in run-Shares_from cs (serve c u) free' v'

-- `init` of a pool that is not initialised, with one block or more, of a buffer that is not null and ends
-- within the address space, so that its size does not wrap, succeeds. After it and any sequence of allocations, which may fail, and of deallocations of live
-- blocks, the free list leads through the free blocks, and the free and the live blocks together are
-- those that init made, each of them once. So no block is handed out twice, and none is lost.
pub run-Shares :
    (n block_size buffer : ℕ) (p : Pool) (cs : List Use)
    → p.initialized ≡ false
    → 0 < buffer
    → block_size + max_align < 2 ^ 64
    → buffer + suc n * rounded_size block_size ≤ 2 ^ 64
    → (q : Pool) × (init (suc n) block_size buffer p ≡ some q)
      × (free : List ℕ) × Shares
          (blocks buffer (rounded_size block_size) 0 (suc n))
          (suc n)
          (run cs (record { pool = q; live = [] }))
          free
run-Shares n block_size buffer p cs off b small space =
    let (q, e, size, owns) = init-Owns n block_size buffer p off b small space in
    let (free, v) =
      run-Shares_from cs (record { pool = q; live = [] })
        (blocks buffer (rounded_size block_size) 0 (suc n))
        (record { owns = owns; not_null = tt; parts = λ test. omega arith }) in
    (q, e, free, v)
