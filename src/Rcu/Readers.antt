-- ===== src/Rcu/Readers.antt =====
-- A reader's accesses in rcu.hpp, and the invariant.
use emb_linux.Prelude.{
  suc, ℕ, ◌<◌, ◌≡◌, ◌≢◌, ◌⊎◌, inl, inr, refl, sym, ap, ◌∙◌, subst, [], ◌∷◌, Bool, true, false,
  arith, update, update_eq, update_ne, ◌==◌, Bool-cases, ==→eq,
}
use emb_linux.Rcu.{
  max_rcu_threads, Domain, Reader, Wish, System, absent, registering, outside, locking, inside,
  nesting, nested, unregistering, stay, leave, nest, read_step, set_reader, store_epoch,
  store_in_use,
}
use emb_linux.Rcu.Invariant.{In, held, ReaderOk, IsBefore, Inv}

-- The reader of one slot goes to `r`, and the domain to `d`, which differs at that slot at most.
module _ {bound : ℕ} {s : System} (inv : Inv bound s) (slot : ℕ) (exists : slot < max_rcu_threads)
    (r : Reader) (d : Domain) where
  record Change : Type 0 where
    same_global : d.global_epoch ≡ s.domain.global_epoch
    others_epoch : (j : ℕ) → slot ≢ j → d.epoch j ≡ s.domain.epoch j
    others_in_use : (j : ℕ) → slot ≢ j → d.in_use j ≡ s.domain.in_use j
    now_ok : ReaderOk d slot r
    gained :
        (p : ℕ)
        → In p (held r)
        → (In p (held (s.readers slot)) × (d.epoch slot ≡ s.domain.epoch slot)) ⊎ (p ≡ s.ptr)

  abbrev changed : System
  changed = record s { domain = d; readers = update s.readers slot r }

  ReaderOk-others :
      (j : ℕ) (q : Reader) → Change → slot ≢ j → ReaderOk s.domain j q → ReaderOk d j q
  ReaderOk-others j registering c ne h = (c.others_in_use j ne ∙ h.0, tt)
  ReaderOk-others j outside c ne h = (c.others_in_use j ne ∙ h.0, tt)
  ReaderOk-others j (locking e) c ne h = ground (arith, c.same_global, c.others_in_use j ne)
  ReaderOk-others j (inside ps) c ne h =
      ground (arith, c.same_global, c.others_epoch j ne, c.others_in_use j ne)
  ReaderOk-others j (nesting e around ps) c ne h = (c.others_in_use j ne ∙ h.0, tt)
  ReaderOk-others j (nested around ps) c ne h = (c.others_in_use j ne ∙ h.0, tt)
  ReaderOk-others j q c ne h = tt

  -- What any reader holds after the change, it held before in the same section, or just read.
  held-changed :
      Change
      → (j p : ℕ) → In p (held (update s.readers slot r j))
      → (In p (held (s.readers j)) × (d.epoch j ≡ s.domain.epoch j)) ⊎ (p ≡ s.ptr)
  held-changed c j p h = elim (Bool-cases (slot == j)) [
    | inl e ↦
        subst (λ k. (In p (held (s.readers k)) × (d.epoch k ≡ s.domain.epoch k)) ⊎ (p ≡ s.ptr))
          (==→eq slot j e)
          (c.gained p
            (subst (λ q. In p (held q)) (update_eq s.readers slot j r (==→eq slot j e)) h))
    | inr e ↦ inl (
      subst (λ q. In p (held q)) (update_ne s.readers slot j r (λ f. ground (arith, f))) h,
      c.others_epoch j (λ f. ground (arith, f)),
    )
  ]

  Change-Inv : Change → Inv bound changed
  Change-Inv c = record {
    started = omega (arith, c.same_global, inv.started);
    small = omega (arith, c.same_global, inv.small);
    reader_ok = λ j. elim (Bool-cases (slot == j)) [
      | inl e ↦
          subst (ReaderOk d j) (sym (update_eq s.readers slot j r (==→eq slot j e)))
            (subst (λ k. ReaderOk d k r) (==→eq slot j e) c.now_ok)
      | inr e ↦
          subst (ReaderOk d j) (sym (update_ne s.readers slot j r (λ f. ground (arith, f))))
            (ReaderOk-others j (s.readers j) c (λ f. ground (arith, f)) (inv.reader_ok j))
    ];
    ptr_below = inv.ptr_below;
    ptr_live = inv.ptr_live;
    null_live = inv.null_live;
    fresh = inv.fresh;
    held_live = λ j p h. elim (held-changed c j p h) [
      | inl (k, e) ↦ inv.held_live j p k
      | inr e ↦ (ap s.freed e ∙ inv.ptr_live, omega (arith, e, inv.ptr_below))
    ];
    retired_live = inv.retired_live;
    unique = inv.unique;
    before = λ w j old h k. elim (held-changed c j old k) [
      | inl (k', e) ↦ subst (IsBefore (s.writers w)) (sym e) (inv.before w j old h k')
      | inr e ↦ absurd ((inv.retired_live w old h).1 e)
    ];
    clear = λ w j old h l k. elim (held-changed c j old k) [
      | inl (k', e) ↦ inv.clear w j old h l k'
      | inr e ↦ (inv.retired_live w old h).1 e
    ];
    beyond = λ j far. ap held (update_ne s.readers slot j r (λ e. omega arith)) ∙ inv.beyond j far;
  }

-- A change of one slot's epoch, and of one slot's use.
module _ {bound : ℕ} {s : System} (inv : Inv bound s) (slot : ℕ)
    (exists : slot < max_rcu_threads) where
  keep-Inv :
      (r : Reader)
      → ReaderOk s.domain slot r
      → ((p : ℕ) → In p (held r) → In p (held (s.readers slot)) ⊎ (p ≡ s.ptr))
      → Inv bound (set_reader slot r s)
  keep-Inv r ok h = Change-Inv inv slot exists r s.domain (record {
    same_global = refl;
    others_epoch = λ j ne. refl;
    others_in_use = λ j ne. refl;
    now_ok = ok;
    gained = λ p k. elim (h p k) [ inl a ↦ inl (a, refl) | inr b ↦ inr b ];
  })

  epoch-Inv :
      (r : Reader) (e : ℕ)
      → held r ≡ []
      → ReaderOk (record (s.domain) { epoch = update s.domain.epoch slot e }) slot r
      → Inv bound (set_reader slot r (store_epoch slot e s))
  epoch-Inv r e none_held ok =
      Change-Inv inv slot exists r (record (s.domain) { epoch = update s.domain.epoch slot e })
        (record {
          same_global = refl;
          others_epoch = λ j ne. update_ne s.domain.epoch slot j e ne;
          others_in_use = λ j ne. refl;
          now_ok = ok;
          gained = λ p k. absurd (subst (In p) none_held k);
        })

  in_use-Inv :
      (r : Reader) (b : Bool)
      → held r ≡ []
      → ReaderOk (record (s.domain) { in_use = update s.domain.in_use slot b }) slot r
      → Inv bound (set_reader slot r (store_in_use slot b s))
  in_use-Inv r b none_held ok =
      Change-Inv inv slot exists r (record (s.domain) { in_use = update s.domain.in_use slot b })
        (record {
          same_global = refl;
          others_epoch = λ j ne. refl;
          others_in_use = λ j ne. update_ne s.domain.in_use slot j b ne;
          now_ok = ok;
          gained = λ p k. absurd (subst (In p) none_held k);
        })

  ok : {r : Reader} → s.readers slot ≡ r → ReaderOk s.domain slot r
  ok e = subst (ReaderOk s.domain slot) e (inv.reader_ok slot)

  pub read_step-Inv :
      (r : Reader) (wish : Wish) → s.readers slot ≡ r → Inv bound (read_step slot r wish s)
  unfolding read_step
  read_step-Inv absent leave e = inv
  read_step-Inv absent nest e = inv
  read_step-Inv absent stay e =
      in_use-Inv registering true refl (update_eq s.domain.in_use slot slot true refl, tt)
  read_step-Inv registering wish e = epoch-Inv outside 0 refl ((ok e).0, tt)
  read_step-Inv outside stay e =
      keep-Inv (locking s.domain.global_epoch) ((ok e).0, inv.started, omega arith)
        (λ p k. absurd k)
  read_step-Inv outside leave e = epoch-Inv unregistering 0 refl tt
  read_step-Inv outside nest e = inv
  read_step-Inv (locking n) wish e = epoch-Inv (inside []) n refl (
    (ok e).0,
    rw (update_eq s.domain.epoch slot slot n refl) (ok e).1,
    rw (update_eq s.domain.epoch slot slot n refl) (ok e).2,
  )
  read_step-Inv (inside ps) stay e =
      keep-Inv (inside (s.ptr ∷ ps)) (ok e)
        (λ p k. elim k [ inl a ↦ inr a | inr b ↦ inl (subst (λ q. In p (held q)) (sym e) b) ])
  read_step-Inv (inside ps) leave e = epoch-Inv outside 0 refl ((ok e).0, tt)
  read_step-Inv (inside ps) nest e =
      keep-Inv (nesting s.domain.global_epoch 1 ps) ((ok e).0, tt) (λ p k. absurd k)
  read_step-Inv (nesting n around ps) wish e = epoch-Inv (nested around ps) n refl ((ok e).0, tt)
  read_step-Inv (nested around ps) stay e =
      keep-Inv (nested around (s.ptr ∷ ps)) ((ok e).0, tt) (λ p k. absurd k)
  read_step-Inv (nested around ps) nest e =
      keep-Inv (nesting s.domain.global_epoch (suc around) ps) ((ok e).0, tt) (λ p k. absurd k)
  read_step-Inv (nested ℕ.zero ps) leave e = epoch-Inv outside 0 refl ((ok e).0, tt)
  read_step-Inv (nested (suc around) ps) leave e =
      epoch-Inv (nested around ps) 0 refl ((ok e).0, tt)
  read_step-Inv unregistering wish e = in_use-Inv absent false refl tt
