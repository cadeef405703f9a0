-- ===== src/Rcu/Updates.antt =====
-- The accesses of `update` in rcu.hpp that change the pointer, the epoch or the heap.
use emb_linux.Prelude.{
  ℕ, suc, ◌+◌, ◌^◌, ◌≤◌, ◌<◌, ◌≡◌, ◌≢◌, ◌⊎◌, inl, inr, refl, sym, ap, ◌∙◌, subst, true, false, some,
  arith, update, update_eq, update_ne, ◌==◌, Bool-cases, ltb, if◌then◌else◌, ltb→lt,
}
use emb_linux.Rcu.{
  nested, nesting, Domain, Reader, Writer, System, idle, swapped, scanning, swap_pointer, add_one,
  max_rcu_threads, locking, inside, registering, outside,
}
use emb_linux.Rcu.Invariant.{In, held, ReaderOk, retired, passed, IsBefore, Inv}
use emb_linux.Rcu.Writers.{retired-update}

-- A writer that has just swapped out the object of the pointer, if there was one.
abbrev after_swap : ℕ → Writer
after_swap ptr = if ptr == 0 then idle else swapped ptr

after_swap-retired : (ptr old : ℕ) → retired (after_swap ptr) ≡ some old → (old ≡ ptr) × (old ≢ 0)
after_swap-retired ptr old h = ground arith

after_swap-IsBefore : (ptr e : ℕ) → IsBefore (after_swap ptr) e
after_swap-IsBefore ptr e = ground arith

after_swap-passed : (ptr : ℕ) → passed (after_swap ptr) ≡ 0
after_swap-passed ptr = ground arith

module _ {bound : ℕ} {s : System} (inv : Inv bound s) (w : ℕ) where
  -- The exchange puts in null or a new object.
  pub swap_pointer-Inv :
      (new_ptr next : ℕ)
      → (new_ptr ≡ 0) ⊎ (s.next_object ≤ new_ptr)
      → new_ptr < next
      → s.next_object ≤ next
      → Inv bound (swap_pointer w new_ptr next s)
  unfolding swap_pointer
  swap_pointer-Inv new_ptr next new_or_null below more = record {
    started = inv.started;
    small = inv.small;
    reader_ok = inv.reader_ok;
    ptr_below = below;
    ptr_live = elim new_or_null [
      | inl e ↦ ap s.freed e ∙ inv.null_live
      | inr e ↦ inv.fresh new_ptr e
    ];
    null_live = inv.null_live;
    fresh = λ p h. inv.fresh p (omega arith);
    beyond = inv.beyond;
    held_live = λ j p h. ((inv.held_live j p h).0, omega (arith, (inv.held_live j p h).1));
    retired_live = λ v o h. elim (retired-update inv w (after_swap s.ptr) v o h) [
      | inl (e, f) ↦
          let (is_ptr, nonzero) = after_swap-retired s.ptr o f in
          (
            nonzero,
            (λ g. omega (arith, new_or_null, inv.ptr_below, is_ptr, g, nonzero)),
            omega (arith, inv.ptr_below, is_ptr),
            ap s.freed is_ptr ∙ inv.ptr_live,
          )
      | inr (e, f) ↦
          let (nonzero, other, small, live) = inv.retired_live v o f in
          (nonzero, (λ g. omega (arith, new_or_null, small, g, nonzero)), omega arith, live)
    ];
    unique = λ v u o h k. elim (retired-update inv w (after_swap s.ptr) v o h) [
      | inl (e, f) ↦ (elim (retired-update inv w (after_swap s.ptr) u o k) [
        | inl (e', f') ↦ sym e ∙ e'
        | inr (e', f') ↦ absurd ((inv.retired_live u o f').1 (after_swap-retired s.ptr o f).0)
      ])
      | inr (e, f) ↦ (elim (retired-update inv w (after_swap s.ptr) u o k) [
        | inl (e', f') ↦ absurd ((inv.retired_live v o f).1 (after_swap-retired s.ptr o f').0)
        | inr (e', f') ↦ inv.unique v u o f f'
      ])
    ];
    before = λ v j o h k. elim (retired-update inv w (after_swap s.ptr) v o h) [
      | inl (e, f) ↦
          subst (λ q. IsBefore q (s.domain.epoch j))
            (sym (update_eq s.writers w v (after_swap s.ptr) e)) (after_swap-IsBefore s.ptr _)
      | inr (e, f) ↦
          subst (λ q. IsBefore q (s.domain.epoch j))
            (sym (update_ne s.writers w v (after_swap s.ptr) e)) (inv.before v j o f k)
    ];
    clear = λ v j o h l k. elim (retired-update inv w (after_swap s.ptr) v o h) [
      | inl (e, f) ↦ absurd (
          omega (
            arith,
            after_swap-passed s.ptr,
            subst (λ q. j < passed q) (update_eq s.writers w v (after_swap s.ptr) e) l,
          ))
      | inr (e, f) ↦
          inv.clear v j o f
            (subst (λ q. j < passed q) (update_ne s.writers w v (after_swap s.ptr) e) l) k
    ];
  }

  ReaderOk-later :
      (j : ℕ) (r : Reader) (d : Domain)
      → (d.in_use j ≡ s.domain.in_use j)
      → (d.epoch j ≡ s.domain.epoch j)
      → s.domain.global_epoch ≤ d.global_epoch
      → ReaderOk s.domain j r
      → ReaderOk d j r
  ReaderOk-later j registering d u e g h = (u ∙ h.0, tt)
  ReaderOk-later j outside d u e g h = (u ∙ h.0, tt)
  ReaderOk-later j (locking n) d u e g h = (u ∙ h.0, omega arith, omega arith)
  ReaderOk-later j (inside ps) d u e g h = (u ∙ h.0, omega arith, omega arith)
  ReaderOk-later j (nesting n around ps) d u e g h = (u ∙ h.0, tt)
  ReaderOk-later j (nested around ps) d u e g h = (u ∙ h.0, tt)
  ReaderOk-later j q d u e g h = tt

  -- A reader that holds anything entered at the present epoch at the latest.
  entered :
      (j p : ℕ) (r : Reader)
      → ReaderOk s.domain j r
      → In p (held r)
      → s.domain.epoch j ≤ s.domain.global_epoch
  entered j p (inside ps) ok h = ok.2
  entered j p (locking n) ok h = absurd h
  entered j p q ok h = absurd h

  add_one-lem : suc bound < 2 ^ 64 → add_one s.domain.global_epoch ≡ s.domain.global_epoch + 1
  add_one-lem room = omega (arith, inv.small)

  -- The new epoch is later than that of every reader that is inside.
  pub fetch_add-Inv :
      (old : ℕ)
      → s.writers w ≡ swapped old
      → suc bound < 2 ^ 64
      → Inv (suc bound) (record s {
        domain = record (s.domain) { global_epoch = add_one s.domain.global_epoch };
        writers = update s.writers w (scanning old (add_one s.domain.global_epoch) 0);
      })
  fetch_add-Inv old was room = record {
    started = omega (arith, add_one-lem room);
    small = omega (arith, inv.small, add_one-lem room);
    reader_ok = λ j.
        ReaderOk-later j (s.readers j)
          (record (s.domain) { global_epoch = add_one s.domain.global_epoch }) refl refl
          (omega (arith, add_one-lem room)) (inv.reader_ok j);
    ptr_below = inv.ptr_below;
    ptr_live = inv.ptr_live;
    null_live = inv.null_live;
    fresh = inv.fresh;
    beyond = inv.beyond;
    held_live = inv.held_live;
    retired_live = λ v o h. inv.retired_live v o (same v o h);
    unique = λ v u o h k. inv.unique v u o (same v o h) (same u o k);
    before = λ v j o h k. elim (retired-update inv w scan v o h) [
      | inl (e, f) ↦
          subst (λ q. IsBefore q (s.domain.epoch j)) (sym (update_eq s.writers w v scan e))
            (omega (arith, entered j o (s.readers j) (inv.reader_ok j) k, add_one-lem room))
      | inr (e, f) ↦
          subst (λ q. IsBefore q (s.domain.epoch j)) (sym (update_ne s.writers w v scan e))
            (inv.before v j o f k)
    ];
    clear = λ v j o h l k. elim (retired-update inv w scan v o h) [
      | inl (e, f) ↦
          absurd (omega (arith, subst (λ q. j < passed q) (update_eq s.writers w v scan e) l))
      | inr (e, f) ↦
          inv.clear v j o f (subst (λ q. j < passed q) (update_ne s.writers w v scan e) l) k
    ];
  }
    where
      scan : Writer
      scan = scanning old (add_one s.domain.global_epoch) 0

      same :
          (v o : ℕ) → retired (update s.writers w scan v) ≡ some o → retired (s.writers v) ≡ some o
      same v o h = elim (retired-update inv w scan v o h) [
        | inl (e, f) ↦ ap (λ x. retired (s.writers x)) (sym e) ∙ ap retired was ∙ f
        | inr (e, f) ↦ f
      ]

  -- When every slot has been passed, no reader holds the object.
  pub all_passed :
      (old new_epoch i : ℕ)
      → s.writers w ≡ scanning old new_epoch i
      → max_rcu_threads ≤ i
      → (j : ℕ) → ¬ In old (held (s.readers j))
  all_passed old new_epoch i was done j h = elim (Bool-cases (ltb j max_rcu_threads)) [
    | inl e ↦
        inv.clear w j old (ap retired was)
          (subst (λ q. j < passed q) (sym was) (omega (arith, ltb→lt j max_rcu_threads e))) h
    | inr e ↦ subst (In old) (inv.beyond j (ground arith)) h
  ]

  pub delete-Inv :
      (old new_epoch i : ℕ)
      → s.writers w ≡ scanning old new_epoch i
      → max_rcu_threads ≤ i
      → Inv bound (record s { freed = update s.freed old true; writers = update s.writers w idle })
  delete-Inv old new_epoch i was done = record {
    started = inv.started;
    small = inv.small;
    reader_ok = inv.reader_ok;
    ptr_below = inv.ptr_below;
    ptr_live = update_ne s.freed old s.ptr true live.1 ∙ inv.ptr_live;
    null_live = update_ne s.freed old 0 true live.0 ∙ inv.null_live;
    fresh = λ p h. update_ne s.freed old p true (λ e. omega (arith, live.2)) ∙ inv.fresh p h;
    beyond = inv.beyond;
    held_live = λ j p h. (
      update_ne s.freed old p true (λ e.
            all_passed old new_epoch i was done j
              (subst (λ x. In x (held (s.readers j))) (sym e) h))
          ∙ (inv.held_live j p h).0,
      (inv.held_live j p h).1,
    );
    retired_live = λ v o h.
        let (e, f) = others v o h in
        let (nonzero, other, below, alive) = inv.retired_live v o f in
        (
          nonzero,
          other,
          below,
          update_ne s.freed old o true (λ g. e (inv.unique w v o (ap retired was ∙ ap some g) f))
              ∙ alive,
        );
    unique = λ v u o h k. inv.unique v u o (others v o h).1 (others u o k).1;
    before = λ v j o h k.
        let (e, f) = others v o h in
        subst (λ q. IsBefore q (s.domain.epoch j)) (sym (update_ne s.writers w v idle e))
          (inv.before v j o f k);
    clear = λ v j o h l k.
        let (e, f) = others v o h in
        inv.clear v j o f (subst (λ q. j < passed q) (update_ne s.writers w v idle e) l) k;
  }
    where
      live : (old ≢ 0) × (old ≢ s.ptr) × (old < s.next_object) × (s.freed old ≡ false)
      live = inv.retired_live w old (ap retired was)

      others :
          (v o : ℕ)
          → retired (update s.writers w idle v) ≡ some o
          → (w ≢ v) × (retired (s.writers v) ≡ some o)
      others v o h = elim (retired-update inv w idle v o h) [
        | inl (e, f) ↦ cc
        | inr (e, f) ↦ (e, f)
      ]
