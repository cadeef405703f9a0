-- ===== src/LockFreeQueue/Window.antt =====
-- The cells from an index on, going round the ring: what the queue of lock_free_queue.hpp holds.
use emb_linux.Prelude.{
  ℕ, zero, suc, ◌+◌, ◌%◌, ◌^◌, ◌≤◌, ◌<◌, ◌≡◌, refl, ap, ap₂, ◌∙◌, sym, List, [], ◌∷◌, ◌++◌, arith,
  update, update_ne, mod_once, add-mod-ne_start, add-mod-shift,
}
use emb_linux.LockFreeQueue.{next_index}

module _ {ℓ} {A : Type ℓ} (capacity : ℕ) where
  -- The values of `n` cells, from index `h` on.
  abbrev pub window : (ℕ → A) → ℕ → ℕ → List A
  window buffer h zero = []
  window buffer h (suc n) = buffer h ∷ window buffer ((h + 1) % (capacity + 1)) n

  pub window-snoc :
      (buffer : ℕ → A) (h n : ℕ)
      → h ≤ capacity
      → n ≤ capacity
      → window buffer h (suc n) ≡ window buffer h n ++ (buffer ((h + n) % (capacity + 1)) ∷ [])
  window-snoc buffer h zero a b =
      ap (λ k. buffer k ∷ []) (omega (arith, mod_once (h + 0) (capacity + 1)))
  window-snoc buffer h (suc n) a b = ap (◌∷◌ (buffer h)) (
      window-snoc buffer ((h + 1) % (capacity + 1)) n (omega arith) (omega arith)
      ∙ ap (λ k. window buffer ((h + 1) % (capacity + 1)) n ++ (buffer k ∷ []))
          (add-mod-shift h n (capacity + 1) (omega arith) (omega arith)))

  -- A write behind the window leaves it alone.
  pub window-update :
      (buffer : ℕ → A) (x : A) (h n m i : ℕ)
      → h ≤ capacity
      → n ≤ m
      → m ≤ capacity
      → i ≡ (h + m) % (capacity + 1)
      → window (update buffer i x) h n ≡ window buffer h n
  window-update buffer x h zero m i a b c e = refl
  window-update buffer x h (suc n) zero i a b c e = absurd (omega arith)
  window-update buffer x h (suc n) (suc m) i a b c e =
      ap₂ ◌∷◌
        (update_ne buffer i h x (λ q.
          add-mod-ne_start h (suc m) (capacity + 1) (omega arith) (omega arith) (omega arith)
            (sym e ∙ q)))
        (window-update buffer x ((h + 1) % (capacity + 1)) n m i (omega arith) (omega arith)
          (omega arith) (e ∙ sym (add-mod-shift h m (capacity + 1) (omega arith) (omega arith))))

-- The additions on indices do not wrap.
pub next_index_lem :
    (capacity i : ℕ)
    → capacity + 1 < 2 ^ 64
    → i ≤ capacity
    → next_index capacity i ≡ (i + 1) % (capacity + 1)
next_index_lem capacity i a b = ap (λ k. k % (capacity + 1)) (omega arith)
