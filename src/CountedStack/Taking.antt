-- ===== src/CountedStack/Taking.antt =====
-- The steps of pop in lock_free_stack that take the data and merge the counts.
use emb_linux.Prelude.{
  ℕ, ◌+◌, ◌<◌, ◌≡◌, ◌≢◌, refl, sym, ap, ◌∙◌, subst, List, none, some, arith, update, ==→eq, ◌==◌,
  if◌then◌else◌, false→ne, update_ne, update_self, inl, inr, Bool-cases, pos_part, neg_part, ◌-◌,
}
use emb_linux.CountedStack.{Counted, Phase, idle, won, adding, deleting, System, take_data}
use emb_linux.CountedStack.Roles.{
  Role, stacked, taken, shared, dying, refers, references, Counts, Knows, Inv,
}
use emb_linux.CountedStack.Invariant.{owner, Touches, references-change}
use emb_linux.CountedStack.Moves.{Sound, sole-owner, relink_outside, touch-Sound}
use emb_linux.CountedStack.{take_data, add_count}
use emb_linux.CountedStack.Popping.{bit_self, bit_other, own_refers, referred}
use emb_linux.CountedStack.Counting.{
  recounted, leave-references, pos_recounted, neg_recounted, outside-Sound,
}

taken-ne_stacked : (t e k : ℕ) → taken t e ≢ stacked k
taken-ne_stacked t e k h = cc

module _ {ℓ} {A : Type ℓ} (threads t : ℕ) (s : System A) (role : ℕ → Role) (stack : List (ℕ × A))
    (present : t < threads) (v : Inv threads role stack s) where
  -- The thread finds the data, and takes them.
  pub take_data-Sound :
      (old : Counted) (x : A)
      → s.phases t ≡ won old
      → s.content old.ptr ≡ some x
      → (s' : System A) × (take_data t old (some x) s ≡ some s') × Sound threads s'
  unfolding take_data
  take_data-Sound old x h holds =
      let (mine, full) = subst (Knows role s.content t) h (v.knows t present) in
      let (used, positive, count) = subst (Counts threads s old.ptr) mine (v.counts old.ptr) in
      let s' = record s {
        content = update s.content old.ptr none;
        phases = update s.phases t (adding old);
      } in
      let touches : Touches threads t old.ptr s s' (adding old) = record {
        present = present;
        phases = refl;
        in_use = λ n ne. refl;
        content = λ j ne. update_ne s.content old.ptr j none ne;
        internal_count = λ n ne. refl;
        next = λ n ne. refl;
        old_refers =
            λ j ne. own_refers threads t s role present (won old) j h ∙ bit_other old.ptr j ne;
        new_refers = λ j ne. bit_other old.ptr j ne;
      } in
      (
        s',
        refl,
        touch-Sound threads t old.ptr s s' (adding old) role stack (taken t old.external_count)
            touches v stack
            (referred threads t s role present stack (won old) old.ptr v h (bit_self old.ptr)).2
            (λ u ne. sole-owner (role old.ptr) t u (ap owner mine) ne)
            (
              used,
              positive,
              omega (
                arith,
                count,
                references-change threads t old.ptr s s' (adding old) touches old.ptr,
                own_refers threads t s role present (won old) old.ptr h,
              ),
            )
            (update_self role old.ptr (taken t old.external_count))
            (relink_outside threads t old.ptr s s' (adding old) role stack
              (taken t old.external_count) touches v
              (λ k f. taken-ne_stacked t old.external_count k (sym mine ∙ f)))
            v.history,
      )

  -- The counts are merged; the node is deleted if no thread refers to it.
  pub add_count-Sound :
      (old : Counted) → s.phases t ≡ adding old → Sound threads (add_count t old s)
  unfolding add_count
  add_count-Sound old h =
      let n = old.ptr in
      let a = pos_part (s.internal_count n) + (old.external_count - 2) in
      let b = neg_part (s.internal_count n) in
      let mine = subst (Knows role s.content t) h (v.knows t present) in
      let (used, positive, count) = subst (Counts threads s n) mine (v.counts n) in
      let (many, again, nonzero) =
        referred threads t s role present stack (adding old) n v h (bit_self n) in
      let off : (k : ℕ) → role n ≢ stacked k =
        λ k f. taken-ne_stacked t old.external_count k (sym mine ∙ f) in
      let o : (u : ℕ) → u ≢ t → owner (role n) ≢ some u =
        λ u ne. sole-owner (role n) t u (ap owner mine) ne in
      let fewer : (p : Phase A)
          → ((j : ℕ) → refers p j ≡ 0)
          → references threads (recounted t n a b p s) n + 1 ≡ references threads s n =
        λ p g.
          leave-references threads t s role stack present v n a b p (adding old) h g (bit_other n)
            (bit_self n) in
      elim (Bool-cases (a == b)) [
        | inl e ↦
            subst (λ c. Sound threads (recounted t n a b (if c then deleting n none else idle) s))
              (sym e)
              (outside-Sound threads t s role stack present v n a b (deleting n none) (adding old)
                (dying t) h (λ j. refl) (bit_other n) nonzero off o
                (
                  used,
                  omega (
                    arith,
                    ==→eq a b e,
                    count,
                    positive,
                    many,
                    fewer (deleting n none) (λ j. refl),
                  ),
                )
                (update_self role n (dying t)))
        | inr e ↦
            subst (λ c. Sound threads (recounted t n a b (if c then deleting n none else idle) s))
              (sym e)
              (outside-Sound threads t s role stack present v n a b idle (adding old) shared h
                (λ j. refl) (bit_other n) nonzero off o
                (
                  used,
                  omega (
                    arith,
                    neg_recounted threads t s role stack present v n a b idle,
                    pos_recounted threads t s role stack present v n a b idle,
                    count,
                    positive,
                    many,
                  ),
                  omega (
                    arith,
                    pos_recounted threads t s role stack present v n a b idle,
                    count,
                    positive,
                    many,
                    fewer idle (λ j. refl),
                  ),
                  omega (arith, false→ne a b e, count, positive, many, fewer idle (λ j. refl)),
                )
                tt)
      ]
