-- ===== src/HazardPointers/Owners.antt =====
-- The owners of the hazard pointers of hazard_pointer.hpp.
use emb_linux.Prelude.{
  false→ne, ℕ, suc, ◌≡◌, ◌≢◌, refl, sym, ap, ◌∙◌, List, [], ◌∷◌, Bool, true, false, ◌==◌, ltb,
  if◌then◌else◌, update, update_ne, inl, inr, some, none, Option, some_inj, none-ne_some, eq-cases,
  update_eq, ==→eq,
}
use emb_linux.HazardPointers.{
  Hazards, Owner, nowhere, trying, holding, clearing, new, set_owner, Wish, gets, stores, ends, own,
  run, max_hazard_pointers,
}

-- The slot that a thread has.
abbrev pub slot_of : Owner → Option ℕ
slot_of nowhere = none
slot_of (trying i) = none
slot_of (holding i) = some i
slot_of (clearing i) = some i

-- Each slot that a thread has bears its id.
abbrev pub Marked : Hazards → Type 0
Marked h = (t i : ℕ) → slot_of (h.owners t) ≡ some i → (h.id i ≡ t) × (t ≢ 0)

-- The owner of thread `t` changes; another thread keeps its slot.
other-slot :
    (t u : ℕ) (o : Owner) (h : Hazards)
    → t ≢ u
    → slot_of (update h.owners t o u) ≡ slot_of (h.owners u)
other-slot t u o h ne = ap slot_of (update_ne h.owners t u o ne)

own-slot : (t u : ℕ) (o : Owner) (h : Hazards) → t ≡ u → slot_of (update h.owners t o u) ≡ slot_of o
own-slot t u o h e = ap slot_of (update_eq h.owners t u o e)

-- A thread goes on without a slot, and its id is taken from the slot that it had, if any.
set_owner-Marked :
    (t : ℕ) (o : Owner) (h : Hazards) → slot_of o ≡ none → Marked h → Marked (set_owner t o h)
set_owner-Marked t o h e m u i f = elim (eq-cases t u) [
  | inl k ↦ absurd (none-ne_some (sym e ∙ sym (own-slot t u o h k) ∙ f))
  | inr k ↦ m u i (sym (other-slot t u o h k) ∙ f)
]

acquires-Marked :
    (t i : ℕ) (h : Hazards)
    → t ≢ 0
    → h.id i ≡ 0
    → Marked h
    → Marked (record h { id = update h.id i t; owners = update h.owners t (holding i) })
acquires-Marked t i h n e m u j f = elim (eq-cases t u) [
  | inl k ↦
      let g = some_inj (sym (own-slot t u (holding i) h k) ∙ f) in
      (update_eq h.id i j t g ∙ k, λ z. n (k ∙ z))
  | inr k ↦
      let v = m u j (sym (other-slot t u (holding i) h k) ∙ f) in
      (update_ne h.id i j t (λ g. v.1 (sym v.0 ∙ sym (ap h.id g) ∙ e)) ∙ v.0, v.1)
]

-- A thread keeps the slot that it has.
keeps-Marked :
    (t i : ℕ) (o : Owner) (h : Hazards)
    → slot_of (h.owners t) ≡ some i
    → slot_of o ≡ some i
    → Marked h
    → (p : ℕ → ℕ) → Marked (record h { pointer = p; owners = update h.owners t o })
keeps-Marked t i o h a b m p u j f = elim (eq-cases t u) [
  | inl k ↦
      m u j (ap (λ x. slot_of (h.owners x)) (sym k) ∙ a ∙ sym b ∙ sym (own-slot t u o h k) ∙ f)
  | inr k ↦ m u j (sym (other-slot t u o h k) ∙ f)
]

-- A thread gives its slot up.
releases-Marked :
    (t i : ℕ) (h : Hazards)
    → slot_of (h.owners t) ≡ some i
    → Marked h
    → Marked (record h { id = update h.id i 0; owners = update h.owners t nowhere })
releases-Marked t i h a m u j f = elim (eq-cases t u) [
  | inl k ↦ absurd (none-ne_some (sym (own-slot t u nowhere h k) ∙ f))
  | inr k ↦
      let v = m u j (sym (other-slot t u nowhere h k) ∙ f) in
      (update_ne h.id i j 0 (λ g. k (sym (m t i a).0 ∙ ap h.id g ∙ v.0)) ∙ v.0, v.1)
]

if-Marked :
    (b : Bool) (g h : Hazards)
    → (b ≡ true → Marked g)
    → (b ≡ false → Marked h)
    → Marked (if b then g else h)
if-Marked true g h v w = v refl
if-Marked false g h v w = w refl

own-Marked :
    (t : ℕ) (o : Owner) (wish : Wish) (h : Hazards)
    → h.owners t ≡ o
    → t ≢ 0
    → Marked h
    → Marked (own t o wish h)
unfolding own
own-Marked t nowhere gets h e n m = set_owner-Marked t (trying 0) h refl m
own-Marked t nowhere (stores p) h e n m = m
own-Marked t nowhere ends h e n m = m
own-Marked t (trying i) wish h e n m =
    if-Marked (ltb i max_hazard_pointers) _ _
      (λ l.
        if-Marked (h.id i == 0) _ _ (λ k. acquires-Marked t i h n (==→eq (h.id i) 0 k) m)
          (λ k. set_owner-Marked t (trying (suc i)) h refl m))
      (λ l. set_owner-Marked t nowhere h refl m)
own-Marked t (holding i) gets h e n m = m
own-Marked t (holding i) (stores p) h e n m = m
own-Marked t (holding i) ends h e n m =
    keeps-Marked t i (clearing i) h (ap slot_of e) refl m (update h.pointer i 0)
own-Marked t (clearing i) wish h e n m = releases-Marked t i h (ap slot_of e) m

run-Marked : (turns : List (ℕ × Wish)) (h : Hazards) → Marked h → Marked (run turns h)
unfolding run
run-Marked [] h m = m
run-Marked ((t, wish) ∷ rest) h m = run-Marked rest _ (
    if-Marked (t == 0) _ _ (λ k. m) (λ k. own-Marked t (h.owners t) wish h refl (false→ne t 0 k) m))

-- In every schedule, two threads that have a hazard pointer have different ones.
pub run_exclusive :
    (turns : List (ℕ × Wish)) (t u i j : ℕ)
    → t ≢ u
    → slot_of ((run turns new).owners t) ≡ some i
    → slot_of ((run turns new).owners u) ≡ some j
    → i ≢ j
run_exclusive turns t u i j ne a b e =
    let m = run-Marked turns new (λ v k f. absurd (none-ne_some f)) in
    ne (sym (m t i a).0 ∙ ap (run turns new).id e ∙ (m u j b).0)
