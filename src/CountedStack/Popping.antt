-- ===== src/CountedStack/Popping.antt =====
-- The steps of pop in lock_free_stack up to the data.
use emb_linux.Prelude.{
  ℕ, ◌+◌, ◌<◌, ◌≡◌, ◌≢◌, refl, sym, ap, ◌∙◌, subst, List, [], ◌∷◌, true, some, arith, update, eq→==,
  ◌==◌, ==-false, if◌then◌else◌, update_self, update_eq, sum_member, bit,
}
use emb_linux.CountedStack.{
  Counted, Phase, idle, increasing, holding, won, failing, System, popped, same, set_phase,
  increase_head_count, exchange_head,
}
use emb_linux.CountedStack.Roles.{
  Role, free, fresh, stacked, taken, shared, dying, is_some, refers, references, Counts, NotAmong,
  Linked, Inv,
}
use emb_linux.CountedStack.Invariant.{owner, Touches, references-change, kept-Counts}
use emb_linux.CountedStack.Moves.{
  Sound, same-equal, quiet-Inv, no-owner, if-Sound, relink, touch-Sound, still-Sound,
}

stacked-ne_free : (k : ℕ) → stacked k ≢ free
stacked-ne_free k h = cc

pub bit_self : (n : ℕ) → bit (n == n) ≡ 1
bit_self n = ap bit (eq→== n n refl)

pub bit_other : (m n : ℕ) → m ≢ n → bit (m == n) ≡ 0
bit_other m n h = ap bit (==-false m n h)

module _ {ℓ} {A : Type ℓ} (threads t : ℕ) (s : System A) (role : ℕ → Role)
    (present : t < threads) where
  pub own_refers : (q : Phase A) (n : ℕ) → s.phases t ≡ q → refers (s.phases t) n ≡ refers q n
  own_refers q n e = ap (λ k. refers k n) e

  -- A node that a thread counts in is in use.
  pub referred :
      (stack : List (ℕ × A)) (q : Phase A) (n : ℕ)
      → Inv threads role stack s
      → s.phases t ≡ q
      → refers q n ≡ 1
      → (0 < references threads s n) × (s.in_use n ≡ true) × (n ≢ 0)
  referred stack q n v h one = (
    many,
    used (role n) (v.counts n),
    λ e. omega (arith, many, (subst (Counts threads s n) (ap role e ∙ v.null_free) (v.counts n)).1),
  )
    where
      many : 0 < references threads s n
      many =
          omega (
            arith,
            sum_member (λ u. refers (s.phases u) n) t threads present,
            own_refers q n h,
            one,
          )

      used : (r : Role) → Counts threads s n r → s.in_use n ≡ true
      used free c = absurd (omega (arith, many, c.1))
      used (fresh u) c = c.0
      used (stacked k) c = c.0
      used (taken u k) c = c.0
      used shared c = c.0
      used (dying u) c = c.0

  -- The count in the head goes up with the references to its node; there may be none.
  counted-Sound :
      (stack : List (ℕ × A)) (old : Counted)
      → Inv threads role stack s
      → s.phases t ≡ increasing old
      → same s.head old ≡ true
      → Sound threads (record s {
        head = record old { external_count = old.external_count + 1 };
        phases = update s.phases t (
            if old.ptr == 0
            then idle
            else holding (record old { external_count = old.external_count + 1 }));
      })
  counted-Sound [] old v h equal =
      let null : old.ptr ≡ 0 = sym ((same-equal s.head old equal).0) ∙ v.linked.null in
      subst
        (λ b. Sound threads (record s {
          head = record old { external_count = old.external_count + 1 };
          phases = update s.phases t (
              if b then idle else holding (record old { external_count = old.external_count + 1 }));
        }))
        (sym (eq→== old.ptr 0 null))
        (
          role,
          [],
          quiet-Inv threads t s (record old { external_count = old.external_count + 1 }) idle role
              [] present (λ n. own_refers (increasing old) n h) (λ n. refl) tt
              (record { null = null }) v,
        )
  counted-Sound ((n, x) ∷ rest) old v h equal =
      let (same_ptr, same_count) = same-equal s.head old equal in
      let here : old.ptr ≡ n = sym same_ptr ∙ v.linked.0 in
      let role_here : role old.ptr ≡ stacked old.external_count =
        ap role here ∙ v.linked.1 ∙ ap stacked same_count in
      let nonzero : old.ptr ≢ 0 =
        λ e. stacked-ne_free old.external_count (sym role_here ∙ ap role e ∙ v.null_free) in
      let more : Counted = record old { external_count = old.external_count + 1 } in
      let s' = record s { head = more; phases = update s.phases t (holding more) } in
      let touches : Touches threads t old.ptr s s' (holding more) = record {
        present = present;
        phases = refl;
        in_use = λ n ne. refl;
        content = λ n ne. refl;
        internal_count = λ n ne. refl;
        next = λ n ne. refl;
        old_refers = λ j ne. own_refers (increasing old) j h;
        new_refers = λ j ne. bit_other old.ptr j ne;
      } in
      let (used, positive, count) = subst (Counts threads s old.ptr) role_here (v.counts old.ptr) in
      subst
        (λ b.
          Sound threads (record s {
            head = more;
            phases = update s.phases t (if b then idle else holding more);
          }))
        (sym (==-false old.ptr 0 nonzero))
        (touch-Sound threads t old.ptr s s' (holding more) role ((n, x) ∷ rest)
          (stacked (old.external_count + 1)) touches v ((n, x) ∷ rest) nonzero
          (λ u ne. no-owner (role old.ptr) u (ap owner role_here))
          (
            used,
            positive,
            omega (
              arith,
              count,
              references-change threads t old.ptr s s' (holding more) touches old.ptr,
              own_refers (increasing old) old.ptr h,
              bit_self old.ptr,
            ),
          )
          tt
          (
            here,
            update_eq role old.ptr n (stacked (old.external_count + 1)) here,
            v.linked.2,
            v.linked.3,
            relink threads t old.ptr s s' (holding more) role ((n, x) ∷ rest)
                (stacked (old.external_count + 1)) touches v (s.next n) rest
                (subst (λ j. NotAmong j rest) (sym here) v.linked.3) v.linked.4,
          )
          v.history)

  pub increase_head_count-Sound :
      (stack : List (ℕ × A)) (old : Counted)
      → Inv threads role stack s
      → s.phases t ≡ increasing old
      → Sound threads (increase_head_count t old s)
  unfolding increase_head_count
  increase_head_count-Sound stack old v h =
      if-Sound threads (same s.head old) _ _ (λ e. counted-Sound stack old v h e)
        (λ e. (
          role,
          stack,
          quiet-Inv threads t s s.head (increasing s.head) role stack present
              (λ n. own_refers (increasing old) n h) (λ n. refl) tt v.linked v,
        ))

  -- The first node leaves the stack, with its data, into the hands of the thread.
  exchanged-Sound :
      (stack : List (ℕ × A)) (old : Counted)
      → Inv threads role stack s
      → s.phases t ≡ holding old
      → same s.head old ≡ true
      → Sound threads (record s {
        head = s.next old.ptr;
        phases = update s.phases t (won old);
        history = popped (s.content old.ptr) ∷ s.history;
      })
  exchanged-Sound [] old v h equal = absurd (
      (referred [] (holding old) old.ptr v h (bit_self old.ptr)).2
        (sym ((same-equal s.head old equal).0) ∙ v.linked.null))
  exchanged-Sound ((n, x) ∷ rest) old v h equal =
      let (same_ptr, same_count) = same-equal s.head old equal in
      let here : old.ptr ≡ n = sym same_ptr ∙ v.linked.0 in
      let role_here : role old.ptr ≡ stacked old.external_count =
        ap role here ∙ v.linked.1 ∙ ap stacked same_count in
      let holds : s.content old.ptr ≡ some x = ap s.content here ∙ v.linked.2 in
      let s' = record s {
        head = s.next old.ptr;
        phases = update s.phases t (won old);
        history = popped (s.content old.ptr) ∷ s.history;
      } in
      let touches : Touches threads t old.ptr s s' (won old) = record {
        present = present;
        phases = refl;
        in_use = λ n ne. refl;
        content = λ n ne. refl;
        internal_count = λ n ne. refl;
        next = λ n ne. refl;
        old_refers = λ j ne. own_refers (holding old) j h ∙ bit_other old.ptr j ne;
        new_refers = λ j ne. bit_other old.ptr j ne;
      } in
      let (used, positive, count) = subst (Counts threads s old.ptr) role_here (v.counts old.ptr) in
      touch-Sound threads t old.ptr s s' (won old) role ((n, x) ∷ rest) (taken t old.external_count)
        touches v rest (referred ((n, x) ∷ rest) (holding old) old.ptr v h (bit_self old.ptr)).2
        (λ u ne. no-owner (role old.ptr) u (ap owner role_here))
        (
          used,
          positive,
          omega (
            arith,
            count,
            references-change threads t old.ptr s s' (won old) touches old.ptr,
            own_refers (holding old) old.ptr h,
          ),
        )
        (update_self role old.ptr (taken t old.external_count), ap is_some holds)
        (relink threads t old.ptr s s' (won old) role ((n, x) ∷ rest) (taken t old.external_count)
          touches v (s.next old.ptr) rest (subst (λ j. NotAmong j rest) (sym here) v.linked.3)
          (subst (λ j. Linked role s.content s.next (s.next j) rest) (sym here) v.linked.4))
        (x, holds, v.history)

  pub exchange_head-Sound :
      (stack : List (ℕ × A)) (old : Counted)
      → Inv threads role stack s
      → s.phases t ≡ holding old
      → Sound threads (exchange_head t old s)
  unfolding exchange_head
  exchange_head-Sound stack old v h =
      if-Sound threads (same s.head old) _ _ (λ e. exchanged-Sound stack old v h e)
        (λ e.
          let s' = set_phase t (failing old.ptr s.head) s in
          let touches : Touches threads t old.ptr s s' (failing old.ptr s.head) = record {
            present = present;
            phases = refl;
            in_use = λ n ne. refl;
            content = λ n ne. refl;
            internal_count = λ n ne. refl;
            next = λ n ne. refl;
            old_refers = λ j ne. own_refers (holding old) j h ∙ bit_other old.ptr j ne;
            new_refers = λ j ne. bit_other old.ptr j ne;
          } in
          still-Sound threads t old.ptr s s' (failing old.ptr s.head) role stack free touches v refl
            refl refl refl
            (kept-Counts threads s s' old.ptr (role old.ptr) refl
              (omega (
                arith,
                references-change threads t old.ptr s s' (failing old.ptr s.head) touches old.ptr,
                own_refers (holding old) old.ptr h,
              ))
              refl refl (v.counts old.ptr))
            tt)
