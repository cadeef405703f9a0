-- ===== src/Rcu/Registry.antt =====
-- `register_thread` and `unregister_thread` of rcu.hpp.
use emb_linux.Prelude.{
  ℕ, zero, suc, ◌+◌, ◌≤◌, ◌<◌, ◌≡◌, ◌⊎◌, inl, inr, refl, sym, ap, ◌∙◌, true, false, Option, none,
  some, arith, update, Bool-cases,
}
use emb_linux.Rcu.{Domain, max_rcu_threads, register_from, register_thread}

-- The slot that registration gives out, or the reason that there is none.
abbrev Registered : ℕ → ℕ → Domain → Option (ℕ × Domain) → Type 0
Registered left slot d none = (i : ℕ) → slot ≤ i → i < slot + left → d.in_use i ≡ true
Registered left slot d (some (i, d')) =
    (slot ≤ i)
    × (i < slot + left)
    × (d.in_use i ≡ false)
    × ((j : ℕ) → slot ≤ j → j < i → d.in_use j ≡ true)
    × (d' ≡ record d { in_use = update d.in_use i true; epoch = update d.epoch i 0 })

register_from_lem :
    (left slot : ℕ) (d : Domain) → Registered left slot d (register_from left slot d)
unfolding register_from
register_from_lem zero slot d = λ i h k. absurd (omega arith)
register_from_lem (suc left) slot d = elim (Bool-cases (d.in_use slot)) [
  | inl e ↦ rw e (widen (register_from left (suc slot) d) (register_from_lem left (suc slot) d) e)
  | inr e ↦ rw e (omega arith, omega arith, e, (λ j h k. absurd (omega arith)), refl)
]
  where
    first_or_later : (j : ℕ) → slot ≤ j → (slot ≡ j) ⊎ (suc slot ≤ j)
    first_or_later j h = ground arith

    widen :
        (r : Option (ℕ × Domain))
        → Registered left (suc slot) d r
        → d.in_use slot ≡ true
        → Registered (suc left) slot d r
    widen none h e = λ j a b. elim (first_or_later j a) [
      | inl f ↦ ap d.in_use (sym f) ∙ e
      | inr f ↦ h j f (omega arith)
    ]
    widen (some (i, d')) (a, b, c, taken, f) e = (
      omega arith,
      omega arith,
      c,
      (λ j k l. elim (first_or_later j k) [
        | inl g ↦ ap d.in_use (sym g) ∙ e
        | inr g ↦ taken j g l
      ]),
      f,
    )

-- `register_thread` fails exactly when all slots are in use. Otherwise it gives out the first slot
-- not in use, marks it, sets its epoch to 0, and changes nothing else.
register_thread_lem :
    (d : Domain)
    → ((register_thread d ≡ none) × ((i : ℕ) → i < max_rcu_threads → d.in_use i ≡ true))
      ⊎ ((i : ℕ) × (i < max_rcu_threads)
          × (d.in_use i ≡ false)
          × ((j : ℕ) → j < i → d.in_use j ≡ true)
          × (register_thread d
              ≡ some (i, record d { in_use = update d.in_use i true; epoch = update d.epoch i 0 })))
unfolding register_thread
register_thread_lem d =
    sort (register_from max_rcu_threads 0 d) (register_from_lem max_rcu_threads 0 d)
  where
    sort :
        (r : Option (ℕ × Domain))
        → Registered max_rcu_threads 0 d r
        → ((r ≡ none) × ((i : ℕ) → i < max_rcu_threads → d.in_use i ≡ true))
          ⊎ ((i : ℕ) × (i < max_rcu_threads)
              × (d.in_use i ≡ false)
              × ((j : ℕ) → j < i → d.in_use j ≡ true)
              × (r
                  ≡ some (
                    i,
                    record d { in_use = update d.in_use i true; epoch = update d.epoch i 0 },
                  )))
    sort none h = inl (refl, λ i k. h i (omega arith) (omega arith))
    sort (some (i, d')) (a, b, c, taken, f) =
        inr (i, omega arith, c, (λ j k. taken j (omega arith) k), ap (λ x. some (i, x)) f)
