-- ===== src/Rcu/Writers.antt =====
-- A writer's accesses in rcu.hpp, and the invariant.
use emb_linux.Prelude.{
  ℕ, ◌≤◌, ◌<◌, ◌≡◌, ◌≢◌, ◌⊎◌, inl, inr, sym, ap, ◌∙◌, subst, false, some, arith, update, update_eq,
  update_ne, ◌==◌, Bool-cases, ==→eq, some_inj,
}
use emb_linux.Rcu.{Reader, Writer, System, spinning, set_writer, locking, inside}
use emb_linux.Rcu.Invariant.{In, held, ReaderOk, retired, passed, IsBefore, Inv}

-- A writer goes on with the same object, or becomes idle.
module _ {bound : ℕ} {s : System} (inv : Inv bound s) (w : ℕ) where
  -- What writer `v` has retired after writer `w` has moved to `p`.
  pub retired-update :
      (p : Writer) (v old : ℕ)
      → retired (update s.writers w p v) ≡ some old
      → ((w ≡ v) × (retired p ≡ some old)) ⊎ ((w ≢ v) × (retired (s.writers v) ≡ some old))
  retired-update p v old h = elim (Bool-cases (w == v)) [
    | inl e ↦ inl (==→eq w v e, ap retired (sym (update_eq s.writers w v p (==→eq w v e))) ∙ h)
    | inr e ↦ inr (
      (λ f. ground (arith, f)),
      ap retired (sym (update_ne s.writers w v p (λ f. ground (arith, f)))) ∙ h,
    )
  ]

  -- A step along the slots keeps the object, and has a reason to pass each slot.
  pub advance-Inv :
      (p : Writer) (old : ℕ)
      → retired (s.writers w) ≡ some old
      → retired p ≡ some old
      → ((e : ℕ) → IsBefore (s.writers w) e → IsBefore p e)
      → ((j : ℕ) → j < passed p → (j < passed (s.writers w)) ⊎ (¬ In old (held (s.readers j))))
      → Inv bound (set_writer w p s)
  advance-Inv p old was is earlier passes = record {
    started = inv.started;
    small = inv.small;
    reader_ok = inv.reader_ok;
    ptr_below = inv.ptr_below;
    ptr_live = inv.ptr_live;
    null_live = inv.null_live;
    fresh = inv.fresh;
    beyond = inv.beyond;
    held_live = inv.held_live;
    retired_live = λ v o h. inv.retired_live v o (before_step v o h);
    unique = λ v u o h k. inv.unique v u o (before_step v o h) (before_step u o k);
    before = λ v j o h k. elim (retired-update p v o h) [
      | inl (e, f) ↦
          subst (λ q. IsBefore q (s.domain.epoch j)) (sym (update_eq s.writers w v p e))
            (earlier _ (inv.before w j o (was ∙ sym is ∙ f) k))
      | inr (e, f) ↦
          subst (λ q. IsBefore q (s.domain.epoch j)) (sym (update_ne s.writers w v p e))
            (inv.before v j o f k)
    ];
    clear = λ v j o h l k. elim (retired-update p v o h) [
      | inl (e, f) ↦ (elim (passes j (subst (λ q. j < passed q) (update_eq s.writers w v p e) l)) [
        | inl m ↦ inv.clear w j o (was ∙ sym is ∙ f) m k
        | inr m ↦ m (subst (λ x. In x (held (s.readers j))) (some_inj (sym f ∙ is)) k)
      ])
      | inr (e, f) ↦ inv.clear v j o f (subst (λ q. j < passed q) (update_ne s.writers w v p e) l) k
    ];
  }
    where
      before_step :
          (v o : ℕ) → retired (update s.writers w p v) ≡ some o → retired (s.writers v) ≡ some o
      before_step v o h = elim (retired-update p v o h) [
        | inl (e, f) ↦ ap (λ x. retired (s.writers x)) (sym e) ∙ was ∙ sym is ∙ f
        | inr (e, f) ↦ f
      ]

  -- A slot with no reader inside does not hold the object, nor does one that entered after it was
  -- swapped out.
  pub slot_free-unused : (j p : ℕ) → s.domain.in_use j ≡ false → ¬ In p (held (s.readers j))
  slot_free-unused j p e = of_reader (s.readers j) (inv.reader_ok j)
    where
      of_reader : (r : Reader) → ReaderOk s.domain j r → ¬ In p (held r)
      of_reader (inside ps) ok h = cc (ok.0)
      of_reader (locking n) ok h = absurd h
      of_reader q ok h = absurd h

  pub slot_free-inactive : (j p : ℕ) → s.domain.epoch j ≡ 0 → ¬ In p (held (s.readers j))
  slot_free-inactive j p e = of_reader (s.readers j) (inv.reader_ok j)
    where
      of_reader : (r : Reader) → ReaderOk s.domain j r → ¬ In p (held r)
      of_reader (inside ps) ok h = absurd (omega arith)
      of_reader (locking n) ok h = absurd h
      of_reader q ok h = absurd h

  pub slot_free-late :
      (j old new_epoch i : ℕ)
      → s.writers w ≡ spinning old new_epoch i
      → new_epoch ≤ s.domain.epoch j
      → ¬ In old (held (s.readers j))
  slot_free-late j old new_epoch i e late h = absurd (omega (arith, entered))
    where
      entered : s.domain.epoch j < new_epoch
      entered = subst (λ q. IsBefore q (s.domain.epoch j)) e (inv.before w j old (ap retired e) h)
