-- ===== src/CoroutinePool/Laws.antt =====
-- The blocks of coroutine_pool.cpp: free or handed out, each in one place.
use emb_linux.Prelude.{
  ◌%◌, ltb, Bool-cases, ℕ, zero, suc, ◌+◌, ◌-◌, ◌*◌, ◌^◌, ◌≤◌, ◌<◌, ◌≡◌, ◌≢◌, refl, sym, subst, ◌∙◌,
  inl, inr, List, [], ◌∷◌, arith, update, Option, none, some, update_self, length, true, false,
  ==-false, some_inj, ◌⊎◌,
}
use emb_linux.Chain.{
  Chain, NotIn, Distinct, Apart, Chain-update, Apart-cons, Apart-tail, Apart-NotIn,
}
use emb_linux.CoroutinePool.{
  ltb, Pool, link_blocks, rounded_size, init, allocate, deallocate, block_header, max_align,
}
use emb_linux.CoroutinePool.Blocks.{
  blocks, length-blocks, Distinct-blocks, link_blocks-Chain, rounded_size-fits,
}

-- The pool is initialised; `free` are its free blocks in the order of the list, `live` those handed
-- out; no block is in two places, and together they are as many as the pool was given.
pub record Owns (max_coroutines : ℕ) (p : Pool) (free live : List ℕ) : Type 0 where
  pub ready : p.initialized ≡ true
  pub chain : Chain 0 p.next p.free_list free
  pub free_once : Distinct free
  pub live_once : Distinct live
  pub apart : Apart live free
  pub total : length free + length live ≡ max_coroutines

-- A list without the element at a place, and the element.
abbrev pub without : ℕ → List ℕ → List ℕ
without k [] = []
without zero (x ∷ xs) = xs
without (suc k) (x ∷ xs) = x ∷ without k xs

abbrev pub at : ℕ → List ℕ → Option ℕ
at k [] = none
at zero (x ∷ xs) = some x
at (suc k) (x ∷ xs) = at k xs

pub NotIn-without : (k j : ℕ) (xs : List ℕ) → NotIn j xs → NotIn j (without k xs)
NotIn-without k j [] h = tt
NotIn-without zero j (x ∷ xs) h = h.1
NotIn-without (suc k) j (x ∷ xs) h = (h.0, NotIn-without k j xs h.1)

NotIn-ne_at : (k j x : ℕ) (xs : List ℕ) → NotIn x xs → at k xs ≡ some j → j ≢ x
NotIn-ne_at k j x [] h e = cc
NotIn-ne_at zero j x (y ∷ ys) h e = λ f. h.0 (sym f ∙ sym (some_inj e))
NotIn-ne_at (suc k) j x (y ∷ ys) h e = NotIn-ne_at k j x ys h.1 e

-- Taking an element out of the list of live blocks.
record Taken (j k : ℕ) (live free : List ℕ) : Type 0 where
  gone : NotIn j (without k live)
  once : Distinct (without k live)
  not_free : NotIn j free
  still_apart : Apart (without k live) free
  shorter : length (without k live) + 1 ≡ length live

take_out :
    (k j : ℕ) (live free : List ℕ)
    → at k live ≡ some j
    → Distinct live
    → Apart live free
    → Taken j k live free
take_out k j [] free e d a = cc
take_out zero j (x ∷ xs) free e d a = record {
  gone = subst (λ y. NotIn y xs) (some_inj e) d.0;
  once = d.1;
  not_free = subst (λ y. NotIn y free) (some_inj e) a.0;
  still_apart = a.1;
  shorter = omega arith;
}
take_out (suc k) j (x ∷ xs) free e d a =
    let t = take_out k j xs free e d.1 a.1 in
    record {
      gone = (NotIn-ne_at k j x xs d.0 e, t.gone);
      once = (NotIn-without k x xs d.0, t.once);
      not_free = t.not_free;
      still_apart = (a.0, t.still_apart);
      shorter = omega (arith, t.shorter);
    }

pub at_nonzero : (k j : ℕ) (live : List ℕ) → NotIn 0 live → at k live ≡ some j → j ≢ 0
at_nonzero k j live h e = NotIn-ne_at k j 0 live h e

allocate_off : (p : Pool) (size : ℕ) → p.initialized ≡ false → allocate size p ≡ none
unfolding allocate
allocate_off p size e = rw e refl

module _ {max_coroutines : ℕ} {p : Pool} where
  -- With a frame that fits and a free block, `allocate` hands out a block that is not live.
  pub allocate-Owns :
      (size j : ℕ) (free live : List ℕ)
      → Owns max_coroutines p (j ∷ free) live
      → size ≤ p.block_size
      → (q : Pool) × (allocate size p ≡ some (j, q))
        × NotIn j live
        × Owns max_coroutines q free (j ∷ live)
  unfolding allocate
  allocate-Owns size j free live v fits = (
    record p { free_list = p.next p.free_list },
    ground (arith, v.ready, v.chain.0, v.chain.1),
    Apart-NotIn live free j v.apart,
    record {
      ready = v.ready;
      chain = subst (λ i. Chain 0 p.next (p.next i) free) (sym v.chain.0) v.chain.2;
      free_once = v.free_once.1;
      live_once = (Apart-NotIn live free j v.apart, v.live_once);
      apart = (v.free_once.0, Apart-tail live free j v.apart);
      total = omega (arith, v.total);
    },
  )

  allocate_fails_ready :
      (size : ℕ) (free live : List ℕ)
      → Owns max_coroutines p free live
      → (allocate size p ≡ none → (p.block_size < size) ⊎ (length live ≡ max_coroutines))
        × ((p.block_size < size) ⊎ (length live ≡ max_coroutines) → allocate size p ≡ none)
  unfolding allocate
  allocate_fails_ready size [] live v =
      ((λ e. inr (omega (arith, v.total))), (λ h. ground (arith, v.ready, v.chain)))
  allocate_fails_ready size (j ∷ free) live v = (
    (λ e. ground (arith, v.ready, v.chain.0, v.chain.1)),
    (λ h. elim h [
      | inl big ↦ ground (arith, v.ready)
      | inr full ↦ absurd (omega (arith, v.total))
    ]),
  )

  -- Of a pool that is not initialised, or whose free and live blocks are each in one place: `allocate`
  -- throws exactly when the pool is not initialised, the frame does not fit, or every block is live.
  pub allocate_fails_iff :
      (size : ℕ) (free live : List ℕ)
      → (p.initialized ≡ true → Owns max_coroutines p free live)
      → (allocate size p ≡ none
          → (p.initialized ≡ false) ⊎ ((p.block_size < size) ⊎ (length live ≡ max_coroutines)))
        × ((p.initialized ≡ false) ⊎ ((p.block_size < size) ⊎ (length live ≡ max_coroutines))
            → allocate size p ≡ none)
  allocate_fails_iff size free live v = elim (Bool-cases p.initialized) [
    | inl on ↦
        let (why, whenever) = allocate_fails_ready size free live (v on) in
        (
          (λ e. inr (why e)),
          (λ h. elim h [ inl off ↦ allocate_off p size off | inr k ↦ whenever k ]),
        )
    | inr off ↦ ((λ e. inl off), (λ h. allocate_off p size off))
  ]

  -- A live block that is given back is the next to be handed out.
  pub deallocate-Owns :
      (k j : ℕ) (free live : List ℕ)
      → Owns max_coroutines p free live
      → at k live ≡ some j
      → j ≢ 0
      → Owns max_coroutines (deallocate j p) (j ∷ free) (without k live)
  unfolding deallocate
  deallocate-Owns k j free live v e nonzero =
      let t = take_out k j live free e v.live_once v.apart in
      rw (==-false j 0 nonzero, v.ready)
        (record {
          ready = refl;
          chain = (
            refl,
            nonzero,
            subst (λ i. Chain 0 (update p.next j p.free_list) i free)
                (sym (update_self p.next j p.free_list))
                (Chain-update 0 p.next j p.free_list p.free_list free t.not_free v.chain),
          );
          free_once = (t.not_free, v.free_once);
          live_once = t.once;
          apart = Apart-cons (without k live) free j t.gone t.still_apart;
          total = omega (arith, v.total, t.shorter);
        })

-- `init` of a pool that is not initialised, with at least one block and memory that is not null and
-- ends within the address space, makes every block free, in the order of the addresses, and none live.
pub init-Owns :
    (n block_size buffer : ℕ) (p : Pool)
    → p.initialized ≡ false
    → 0 < buffer
    → block_size + max_align < 2 ^ 64
    → buffer + suc n * rounded_size block_size ≤ 2 ^ 64
    → (q : Pool) × (init (suc n) block_size buffer p ≡ some q)
      × (q.block_size ≡ rounded_size block_size)
      × Owns (suc n) q (blocks buffer (rounded_size block_size) 0 (suc n)) []
unfolding init
init-Owns n block_size buffer p off b small space = (
  record p {
    memory_buffer = buffer;
    free_list = buffer;
    block_size = rounded_size block_size;
    initialized = true;
    next = link_blocks (suc n - 1) 1 buffer (rounded_size block_size) buffer p.next;
  },
  rw (off, inside) refl,
  refl,
  record {
    ready = refl;
    chain =
        subst
          (λ m.
            Chain 0 (link_blocks m 1 buffer (rounded_size block_size) buffer p.next) buffer
              (blocks buffer (rounded_size block_size) 0 (suc n)))
          back
          (subst
            (λ a.
              Chain 0 (link_blocks n 1 buffer (rounded_size block_size) a p.next) a
                (blocks buffer (rounded_size block_size) 0 (suc n)))
            first
            (link_blocks-Chain n 0 buffer (rounded_size block_size) p.next b
              (omega (arith, positive))));
    free_once =
        Distinct-blocks buffer (rounded_size block_size) 0 (suc n) (omega (arith, positive));
    live_once = tt;
    apart = tt;
    total = omega (arith, length-blocks buffer (rounded_size block_size) 0 (suc n));
  },
)
  where
    positive : block_header ≤ rounded_size block_size
    positive = (rounded_size-fits block_size small).1

    back : n ≡ suc n - 1
    back = omega arith

    last_inside : (r : ℕ) → block_header ≤ r → (suc n - 1) * r + block_header ≤ suc n * r
    last_inside r h = subst (λ k. k * r + block_header ≤ suc n * r) back (omega (arith, h))

    holds_last : (m k : ℕ) → m < 2 ^ 64 → k ≤ m → ltb (m % 2 ^ 64) k ≡ false
    holds_last m k a c = ground arith

    inside :
        ltb
          (suc n * rounded_size block_size % 2 ^ 64)
          ((suc n - 1) * rounded_size block_size + block_header)
        ≡ false
    inside =
        holds_last (suc n * rounded_size block_size)
          ((suc n - 1) * rounded_size block_size + block_header) (omega (arith, space, b))
          (last_inside (rounded_size block_size) positive)

    first : buffer + 0 * rounded_size block_size ≡ buffer
    first = omega arith
