-- ===== src/CountedStack/Pushing.antt =====
-- The steps of push in lock_free_stack.
use emb_linux.Prelude.{
  true-ne_false, ℕ, ◌<◌, ◌≡◌, ◌≢◌, refl, sym, ap, ◌∙◌, subst, List, ◌∷◌, true, false, some, arith,
  update, ◌==◌, or-neither, ◌||◌, false→ne, true-ne_false, update_ne, update_self, pos, pos_part,
  neg_part,
}
use emb_linux.CountedStack.{
  some, true, update, List, Phase, idle, pushing, System, pushed, same, begin_push, retry_push,
  link,
}
use emb_linux.CountedStack.Roles.{
  Role, free, fresh, stacked, taken, shared, dying, is_some, refers, Counts, Knows, values, Inv,
}
use emb_linux.CountedStack.Invariant.{owner, Touches, NotAmong-role, Linked-head, references-change}
use emb_linux.CountedStack.Moves.{
  Sound, same-equal, free-ne_stacked, sole-owner, no-owner, if-Sound, relink_outside, touch-Sound,
}

fresh-ne_free : (t : ℕ) → fresh t ≢ free
fresh-ne_free t h = cc

fresh-ne_stacked : (t k : ℕ) → fresh t ≢ stacked k
fresh-ne_stacked t k h = cc

-- Thread `t` steps from a state with the invariant.
module _ {ℓ} {A : Type ℓ} (threads t : ℕ) (s : System A) (role : ℕ → Role) (stack : List (ℕ × A))
    (present : t < threads) (v : Inv threads role stack s) where
  pub free-unused : (n : ℕ) → s.in_use n ≡ false → role n ≡ free
  free-unused n h = unused (role n) refl (v.counts n)
    where
      unused : (r : Role) → role n ≡ r → Counts threads s n r → r ≡ free
      unused free e c = refl
      unused (fresh u) e c = absurd (true-ne_false (sym c.0 ∙ h))
      unused (stacked k) e c = absurd (true-ne_false (sym c.0 ∙ h))
      unused (taken u k) e c = absurd (true-ne_false (sym c.0 ∙ h))
      unused shared e c = absurd (true-ne_false (sym c.0 ∙ h))
      unused (dying u) e c = absurd (true-ne_false (sym c.0 ∙ h))

  pub own_refers : (q : Phase A) (n : ℕ) → s.phases t ≡ q → refers (s.phases t) n ≡ refers q n
  own_refers q n e = ap (λ k. refers k n) e

  -- `new` gives an address that is not in use; with another one, nothing happens.
  pub begin_push-Sound : (x : A) (a : ℕ) → s.phases t ≡ idle → Sound threads (begin_push t x a s)
  unfolding begin_push
  begin_push-Sound x a h =
      if-Sound threads (s.in_use a || a == 0) s _ (λ e. (role, stack, v))
        (λ e.
          let (unused, nonzero) = or-neither (s.in_use a) (a == 0) e in
          let is_free = free-unused a unused in
          let touches : Touches threads t a s _ (pushing a) = record {
            present = present;
            phases = refl;
            in_use = λ n ne. update_ne s.in_use a n true ne;
            content = λ n ne. update_ne s.content a n (some x) ne;
            internal_count = λ n ne. update_ne s.internal_count a n (pos 0) ne;
            next = λ n ne. update_ne s.next a n s.head ne;
            old_refers = λ n ne. own_refers idle n h;
            new_refers = λ n ne. refl;
          } in
          touch-Sound threads t a s _ (pushing a) role stack (fresh t) touches v stack
            (false→ne a 0 nonzero) (λ u ne. no-owner (role a) u (ap owner is_free))
            (
              update_self s.in_use a true,
              omega (
                arith,
                references-change threads t a s _ (pushing a) touches a,
                own_refers idle a h,
                (subst (Counts threads s a) is_free (v.counts a)).1,
              ),
              update_self s.internal_count a (pos 0),
              ap is_some (update_self s.content a (some x)),
            )
            (update_self role a (fresh t))
            (relink_outside threads t a s _ (pushing a) role stack (fresh t) touches v
              (λ k f. free-ne_stacked k (sym is_free ∙ f)))
            v.history)

  pub pushing-nonzero : (n : ℕ) → s.phases t ≡ pushing n → (n ≢ 0) × (role n ≡ fresh t)
  pushing-nonzero n h =
      let mine : role n ≡ fresh t = subst (Knows role s.content t) h (v.knows t present) in
      ((λ e. fresh-ne_free t (sym mine ∙ ap role e ∙ v.null_free)), mine)

  pub retry_push-Sound : (n : ℕ) → s.phases t ≡ pushing n → Sound threads (retry_push t n s)
  unfolding retry_push
  retry_push-Sound n h =
      let (nonzero, mine) = pushing-nonzero n h in
      let (used, unreferenced, zero_count, full) = subst (Counts threads s n) mine (v.counts n) in
      let touches : Touches threads t n s _ (pushing n) = record {
        present = present;
        phases = refl;
        in_use = λ n ne. refl;
        content = λ n ne. refl;
        internal_count = λ n ne. refl;
        next = λ j ne. update_ne s.next n j s.head ne;
        old_refers = λ j ne. own_refers (pushing n) j h;
        new_refers = λ n ne. refl;
      } in
      touch-Sound threads t n s _ (pushing n) role stack (fresh t) touches v stack nonzero
        (λ u ne. sole-owner (role n) t u (ap owner mine) ne)
        (
          used,
          omega (
            arith,
            references-change threads t n s _ (pushing n) touches n,
            own_refers (pushing n) n h,
            unreferenced,
          ),
          zero_count,
          full,
        )
        (update_self role n (fresh t))
        (relink_outside threads t n s _ (pushing n) role stack (fresh t) touches v
          (λ k f. fresh-ne_stacked t k (sym mine ∙ f)))
        v.history

  -- The node becomes the first one of the stack.
  pub link-Sound :
      (n : ℕ) (x : A)
      → s.phases t ≡ pushing n
      → s.content n ≡ some x
      → same s.head (s.next n) ≡ true
      → (s' : System A) × (link t n (some x) s ≡ some s') × Sound threads s'
  unfolding link
  link-Sound n x h holds equal =
      let (nonzero, mine) = pushing-nonzero n h in
      let (used, unreferenced, zero_count, full) = subst (Counts threads s n) mine (v.counts n) in
      let (same_ptr, same_count) = same-equal s.head (s.next n) equal in
      let s' = record s {
        head = record { external_count = 1; ptr = n };
        phases = update s.phases t idle;
        history = pushed x ∷ s.history;
      } in
      let touches : Touches threads t n s s' idle = record {
        present = present;
        phases = refl;
        in_use = λ n ne. refl;
        content = λ n ne. refl;
        internal_count = λ n ne. refl;
        next = λ n ne. refl;
        old_refers = λ j ne. own_refers (pushing n) j h;
        new_refers = λ n ne. refl;
      } in
      let outside : (k : ℕ) → role n ≢ stacked k = λ k f. fresh-ne_stacked t k (sym mine ∙ f) in
      (
        s',
        refl,
        touch-Sound threads t n s s' idle role stack (stacked 1) touches v ((n, x) ∷ stack) nonzero
            (λ u ne. sole-owner (role n) t u (ap owner mine) ne)
            (
              used,
              ap pos_part zero_count,
              omega (
                arith,
                references-change threads t n s s' idle touches n,
                own_refers (pushing n) n h,
                unreferenced,
                ap neg_part zero_count,
              ),
            )
            tt
            (
              refl,
              update_self role n (stacked 1),
              holds,
              NotAmong-role role s.content s.next s.head stack n outside v.linked,
              Linked-head (update role n (stacked 1)) s.content s.next s.head (s.next n) stack
                  same_ptr same_count
                  (relink_outside threads t n s s' idle role stack (stacked 1) touches v outside),
            )
            (values stack, refl, v.history),
      )
