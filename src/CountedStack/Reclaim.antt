-- ===== src/CountedStack/Reclaim.antt =====
-- The steps of pop in lock_free_stack that give a reference back and delete a node.
use emb_linux.Prelude.{
  ℕ, ◌+◌, ◌<◌, ◌≡◌, ◌≢◌, refl, sym, ap, ◌∙◌, subst, List, false, Option, some, arith, update, eq→==,
  ==-false, if◌then◌else◌, update_ne, update_self, inl, inr, pos_part, neg_part, ◌-◌,
}
use emb_linux.CountedStack.{Counted, Phase, increasing, failing, deleting, System}
use emb_linux.CountedStack.Roles.{
  Role, free, fresh, stacked, taken, shared, dying, refers, references, Counts, Knows, Inv,
}
use emb_linux.CountedStack.Invariant.{owner, Touches, references-change}
use emb_linux.CountedStack.Moves.{Sound, sole-owner, no-owner, relink_outside, touch-Sound}
use emb_linux.CountedStack.{drop_count}
use emb_linux.CountedStack.Popping.{bit_self, bit_other, own_refers, referred}
use emb_linux.Prelude.{eq-cases}
use emb_linux.CountedStack.Counting.{
  recounted, leave-references, pos_recounted, neg_recounted, outside-Sound, kept-Sound,
}

dying-ne_stacked : (t k : ℕ) → dying t ≢ stacked k
dying-ne_stacked t k h = cc

shared-ne_stacked : (k : ℕ) → shared ≢ stacked k
shared-ne_stacked k h = cc

dying-ne_free : (t : ℕ) → dying t ≢ free
dying-ne_free t h = cc

module _ {ℓ} {A : Type ℓ} (threads t : ℕ) (s : System A) (role : ℕ → Role) (stack : List (ℕ × A))
    (present : t < threads) (v : Inv threads role stack s) where
  -- A thread that has lost the exchange gives its reference back, and others are left.
  lost-Sound :
      (n : ℕ) (later : Counted)
      → s.phases t ≡ failing n later
      → pos_part (s.internal_count n) ≢ 1
      → Counts threads
          (recounted t n
            (pos_part (s.internal_count n))
            (neg_part (s.internal_count n) + 1)
            (increasing later)
            s)
          n
          (role n)
      → Sound threads (drop_count t n later s)
  unfolding drop_count
  lost-Sound n later h ne c =
      let a = pos_part (s.internal_count n) in
      let b = neg_part (s.internal_count n) + 1 in
      subst
        (λ k.
          Sound threads
            (recounted t n a b (if k then deleting n (some later) else increasing later) s))
        (sym (==-false a 1 ne))
        (kept-Sound threads t s role stack present v n a b (increasing later) (failing n later) h
          (λ j. refl) (bit_other n) c tt)

  -- The last one deletes the node.
  last-Sound :
      (n : ℕ) (later : Counted)
      → s.phases t ≡ failing n later
      → role n ≡ shared
      → pos_part (s.internal_count n) ≡ 1
      → Sound threads (drop_count t n later s)
  unfolding drop_count
  last-Sound n later h e one =
      let a = pos_part (s.internal_count n) in
      let b = neg_part (s.internal_count n) + 1 in
      let (used, positive, count, some_left) = subst (Counts threads s n) e (v.counts n) in
      subst
        (λ k.
          Sound threads
            (recounted t n a b (if k then deleting n (some later) else increasing later) s))
        (sym (eq→== a 1 one))
        (outside-Sound threads t s role stack present v n a b (deleting n (some later))
          (failing n later) (dying t) h (λ j. refl) (bit_other n)
          (referred threads t s role present stack (failing n later) n v h (bit_self n)).2
          (λ k f. shared-ne_stacked k (sym e ∙ f)) (λ u ne. no-owner (role n) u (ap owner e))
          (
            used,
            omega (
              arith,
              one,
              count,
              leave-references threads t s role stack present v n a b (deleting n (some later))
                  (failing n later) h (λ j. refl) (bit_other n) (bit_self n),
            ),
          )
          (update_self role n (dying t)))

  pub drop_count-Sound :
      (n : ℕ) (later : Counted)
      → s.phases t ≡ failing n later
      → Sound threads (drop_count t n later s)
  drop_count-Sound n later h = by_role (role n) refl (v.counts n)
    where
      a : ℕ
      a = pos_part (s.internal_count n)

      b : ℕ
      b = neg_part (s.internal_count n) + 1

      after : System A
      after = recounted t n a b (increasing later) s

      many : 0 < references threads s n
      many = (referred threads t s role present stack (failing n later) n v h (bit_self n)).0

      fewer : references threads after n + 1 ≡ references threads s n
      fewer =
          leave-references threads t s role stack present v n a b (increasing later)
            (failing n later) h (λ j. refl) (bit_other n) (bit_self n)

      positive_after : pos_part (after.internal_count n) ≡ a - b
      positive_after = pos_recounted threads t s role stack present v n a b (increasing later)

      parts_after : pos_part (after.internal_count n) + b ≡ neg_part (after.internal_count n) + a
      parts_after = neg_recounted threads t s role stack present v n a b (increasing later)

      by_role :
          (r : Role) → role n ≡ r → Counts threads s n r → Sound threads (drop_count t n later s)
      by_role free e c = absurd (omega (arith, many, c.1))
      by_role (fresh u) e c = absurd (omega (arith, many, c.1))
      by_role (dying u) e c = absurd (omega (arith, many, c.1))
      by_role (stacked k) e (used, nothing, count) =
          lost-Sound n later h (λ f. omega (arith, f, nothing))
            (subst (Counts threads after n) (sym e) (
              used,
              omega (arith, positive_after, nothing),
              omega (arith, positive_after, parts_after, nothing, count, fewer),
            ))
      by_role (taken u k) e (used, nothing, count) =
          lost-Sound n later h (λ f. omega (arith, f, nothing))
            (subst (Counts threads after n) (sym e) (
              used,
              omega (arith, positive_after, nothing),
              omega (arith, positive_after, parts_after, nothing, count, fewer),
            ))
      by_role shared e (used, nothing, count, left) = elim (eq-cases a 1) [
        | inl one ↦ last-Sound n later h e one
        | inr ne ↦ lost-Sound n later h ne (
            subst (Counts threads after n) (sym e) (
              used,
              omega (arith, positive_after, parts_after, nothing, count, left),
              omega (arith, positive_after, nothing, count, fewer),
              omega (arith, ne, count, left, fewer),
            ))
      ]

  -- `delete`
  pub delete-Sound :
      (n : ℕ) (after : Option Counted) (p : Phase A)
      → s.phases t ≡ deleting n after
      → ((j : ℕ) → refers p j ≡ 0)
      → Knows (update role n free) s.content t p
      → Sound threads (record s { in_use = update s.in_use n false; phases = update s.phases t p })
  delete-Sound n after p h g k =
      let mine = subst (Knows role s.content t) h (v.knows t present) in
      let (used, unreferenced) = subst (Counts threads s n) mine (v.counts n) in
      let s' = record s { in_use = update s.in_use n false; phases = update s.phases t p } in
      let touches : Touches threads t n s s' p = record {
        present = present;
        phases = refl;
        in_use = λ j ne. update_ne s.in_use n j false ne;
        content = λ n ne. refl;
        internal_count = λ n ne. refl;
        next = λ n ne. refl;
        old_refers = λ j ne. own_refers threads t s role present (deleting n after) j h;
        new_refers = λ j ne. g j;
      } in
      touch-Sound threads t n s s' p role stack free touches v stack
        (λ e. dying-ne_free t (sym mine ∙ ap role e ∙ v.null_free))
        (λ u ne. sole-owner (role n) t u (ap owner mine) ne)
        (
          update_self s.in_use n false,
          omega (
            arith,
            references-change threads t n s s' p touches n,
            own_refers threads t s role present (deleting n after) n h,
            unreferenced,
            g n,
          ),
        )
        k
        (relink_outside threads t n s s' p role stack free touches v
          (λ k f. dying-ne_stacked t k (sym mine ∙ f)))
        v.history
