-- ===== src/CountedStack/Counting.antt =====
-- The steps of lock_free_stack that set the internal count of a node and leave it.
use emb_linux.Prelude.{
  ℕ, ◌+◌, ◌<◌, ◌≡◌, ◌≢◌, refl, sym, ap, ◌∙◌, subst, List, some, arith, update, update_ne,
  update_self, sub_ℕ_parts, sub_ℕ_sign, pos_part, neg_part, sub_ℕ, ◌-◌,
}
use emb_linux.CountedStack.{Phase, System}
use emb_linux.CountedStack.Roles.{Role, free, stacked, refers, references, Counts, Knows, Inv}
use emb_linux.CountedStack.Invariant.{owner, Touches, references-change}
use emb_linux.CountedStack.Moves.{Sound, relink_outside, touch-Sound, still-Sound}
use emb_linux.CountedStack.Popping.{own_refers}

-- The internal count of a node is set to a difference.
abbrev pub recounted {ℓ} : {A : Type ℓ} → ℕ → ℕ → ℕ → ℕ → Phase A → System A → System A
recounted t n a b p s = record s {
  internal_count = update s.internal_count n (sub_ℕ a b);
  phases = update s.phases t p;
}

module _ {ℓ} {A : Type ℓ} (threads t : ℕ) (s : System A) (role : ℕ → Role) (stack : List (ℕ × A))
    (present : t < threads) (v : Inv threads role stack s) where
  recounted-Touches :
      (n a b : ℕ) (p q : Phase A)
      → s.phases t ≡ q
      → ((j : ℕ) → n ≢ j → refers q j ≡ 0)
      → ((j : ℕ) → n ≢ j → refers p j ≡ 0)
      → Touches threads t n s (recounted t n a b p s) p
  recounted-Touches n a b p q h f g = record {
    present = present;
    phases = refl;
    in_use = λ n ne. refl;
    content = λ n ne. refl;
    internal_count = λ j ne. update_ne s.internal_count n j (sub_ℕ a b) ne;
    next = λ n ne. refl;
    old_refers = λ j ne. own_refers threads t s role present q j h ∙ f j ne;
    new_refers = g;
  }

  -- The thread stops counting as a reference to a node, whose internal count becomes a - b.
  pub leave-references :
      (n a b : ℕ) (p q : Phase A)
      → s.phases t ≡ q
      → ((j : ℕ) → refers p j ≡ 0)
      → ((j : ℕ) → n ≢ j → refers q j ≡ 0)
      → refers q n ≡ 1
      → references threads (recounted t n a b p s) n + 1 ≡ references threads s n
  leave-references n a b p q h g f one = omega (
    arith,
    references-change threads t n s (recounted t n a b p s) p
        (recounted-Touches n a b p q h f (λ j ne. g j)) n,
    own_refers threads t s role present q n h,
    one,
    g n,
  )

  pub pos_recounted :
      (n a b : ℕ) (p : Phase A) → pos_part ((recounted t n a b p s).internal_count n) ≡ a - b
  pos_recounted n a b p = ap pos_part (update_self s.internal_count n (sub_ℕ a b)) ∙ sub_ℕ_sign a b

  pub neg_recounted :
      (n a b : ℕ) (p : Phase A)
      → pos_part ((recounted t n a b p s).internal_count n) + b
        ≡ neg_part ((recounted t n a b p s).internal_count n) + a
  neg_recounted n a b p =
      subst (λ i. pos_part i + b ≡ neg_part i + a)
        (sym (update_self s.internal_count n (sub_ℕ a b))) (sub_ℕ_parts a b)

  -- A node that is out of the stack gets another role.
  pub outside-Sound :
      (n a b : ℕ) (p q : Phase A) (r : Role)
      → s.phases t ≡ q
      → ((j : ℕ) → refers p j ≡ 0)
      → ((j : ℕ) → n ≢ j → refers q j ≡ 0)
      → n ≢ 0
      → ((k : ℕ) → role n ≢ stacked k)
      → ((u : ℕ) → u ≢ t → owner (role n) ≢ some u)
      → Counts threads (recounted t n a b p s) n r
      → Knows (update role n r) s.content t p
      → Sound threads (recounted t n a b p s)
  outside-Sound n a b p q r h g f nonzero off o c k =
      let touches = recounted-Touches n a b p q h f (λ j ne. g j) in
      touch-Sound threads t n s (recounted t n a b p s) p role stack r touches v stack nonzero o c k
        (relink_outside threads t n s (recounted t n a b p s) p role stack r touches v off)
        v.history

  -- A node whose role stays as it is.
  pub kept-Sound :
      (n a b : ℕ) (p q : Phase A)
      → s.phases t ≡ q
      → ((j : ℕ) → refers p j ≡ 0)
      → ((j : ℕ) → n ≢ j → refers q j ≡ 0)
      → Counts threads (recounted t n a b p s) n (role n)
      → Knows role s.content t p
      → Sound threads (recounted t n a b p s)
  kept-Sound n a b p q h g f c k =
      still-Sound threads t n s (recounted t n a b p s) p role stack free
        (recounted-Touches n a b p q h f (λ j ne. g j)) v refl refl refl refl c k
