-- ===== src/HazardPointers/Sweep.antt =====
-- What delete_nodes_with_no_hazards of hazard_pointer.hpp deletes and what it keeps.
use emb_linux.Prelude.{
  ℕ, zero, suc, ◌+◌, ◌≤◌, ◌<◌, ◌≡◌, ◌↔◌, refl, sym, ap, ◌∙◌, List, [], ◌∷◌, Bool, true, ◌==◌, not,
  if◌then◌else◌, arith, Bool-cases, inl, inr, ap₂, eq-cases, eq→==, ==→eq, true-ne_false,
}
use emb_linux.HazardPointers.{
  Hazards, outstanding_from, outstanding_hazard_pointers_for, reclaim_later, sweep,
  delete_nodes_with_no_hazards, max_hazard_pointers,
}

-- The elements that pass a test, the last one first, before these.
abbrev pub selected : (ℕ → Bool) → List ℕ → List ℕ → List ℕ
selected test [] later = later
selected test (p ∷ ps) later = selected test ps (if test p then p ∷ later else later)

outstanding_from-found :
    (left i p j : ℕ) (h : Hazards)
    → i ≤ j
    → j < i + left
    → h.pointer j ≡ p
    → outstanding_from left i p h ≡ true
unfolding outstanding_from
outstanding_from-found zero i p j h a b e = absurd (omega arith)
outstanding_from-found (suc left) i p j h a b e = elim (eq-cases i j) [
  | inl k ↦
      ap (λ c. if c then true else outstanding_from left (suc i) p h)
        (eq→== (h.pointer i) p (ap h.pointer k ∙ e))
  | inr k ↦ elim (Bool-cases (h.pointer i == p)) [
    | inl f ↦ ap (λ c. if c then true else outstanding_from left (suc i) p h) f
    | inr f ↦
        ap (λ c. if c then true else outstanding_from left (suc i) p h) f
        ∙ outstanding_from-found left (suc i) p j h (omega (arith, k)) (omega arith) e
  ]
]

outstanding_from-index :
    (left i p : ℕ) (h : Hazards)
    → outstanding_from left i p h ≡ true
    → (j : ℕ) × (j < i + left) × (h.pointer j ≡ p)
unfolding outstanding_from
outstanding_from-index zero i p h e = absurd (true-ne_false (sym e))
outstanding_from-index (suc left) i p h e = elim (Bool-cases (h.pointer i == p)) [
  | inl f ↦ (i, omega arith, ==→eq (h.pointer i) p f)
  | inr f ↦
      let (j, a, g) =
        outstanding_from-index left (suc i) p h
          (sym (ap (λ c. if c then true else outstanding_from left (suc i) p h) f) ∙ e) in
      (j, omega arith, g)
]

-- A pointer is outstanding exactly when it stands in one of the slots.
pub outstanding_iff :
    (p : ℕ) (h : Hazards)
    → (outstanding_hazard_pointers_for p h ≡ true)
      ↔ ((j : ℕ) × (j < max_hazard_pointers) × (h.pointer j ≡ p))
unfolding outstanding_hazard_pointers_for
outstanding_iff p h = (
  (λ e. outstanding_from-index max_hazard_pointers 0 p h e),
  (λ (j, a, e). outstanding_from-found max_hazard_pointers 0 p j h (omega arith) a e),
)

-- Only the slots' pointers matter.
outstanding_from-eq :
    (left i p : ℕ) (g h : Hazards)
    → g.pointer ≡ h.pointer
    → outstanding_from left i p g ≡ outstanding_from left i p h
unfolding outstanding_from
outstanding_from-eq zero i p g h e = refl
outstanding_from-eq (suc left) i p g h e =
    ap₂ (λ q b. if q i == p then true else b) e (outstanding_from-eq left (suc i) p g h e)

-- What is kept and what is deleted by the sweep of these nodes, with this outcome of the test.
record Swept (outstanding : ℕ → Bool) (ps : List ℕ) (h g : Hazards) : Type 0 where
  kept : g.to_reclaim ≡ selected outstanding ps h.to_reclaim
  gone : g.deleted ≡ selected (λ p. not (outstanding p)) ps h.deleted

sweep-Swept :
    (outstanding : ℕ → Bool) (ps : List ℕ) (h k : Hazards)
    → ((p : ℕ) → outstanding_hazard_pointers_for p k ≡ outstanding p)
    → h.pointer ≡ k.pointer
    → Swept outstanding ps h (sweep ps h)
unfolding sweep reclaim_later outstanding_hazard_pointers_for
sweep-Swept outstanding [] h k f e = record { kept = refl; gone = refl }
sweep-Swept outstanding (p ∷ ps) h k f e =
    let same = outstanding_from-eq max_hazard_pointers 0 p h k e ∙ f p in
    elim (Bool-cases (outstanding p)) [
      | inl o ↦
          let w = sweep-Swept outstanding ps (reclaim_later p h) k f e in
          let s =
            ap
              (λ b.
                sweep ps (if b then reclaim_later p h else record h { deleted = p ∷ h.deleted }))
              (same ∙ o) in
          record {
            kept =
                ap (λ g. g.to_reclaim) s
                ∙ w.kept
                ∙ sym (
                    ap (λ b. selected outstanding ps (if b then p ∷ h.to_reclaim else h.to_reclaim))
                      o);
            gone =
                ap (λ g. g.deleted) s
                ∙ w.gone
                ∙ sym (
                    ap
                      (λ b.
                        selected (λ q. not (outstanding q)) ps
                          (if not b then p ∷ h.deleted else h.deleted))
                      o);
          }
      | inr o ↦
          let w = sweep-Swept outstanding ps (record h { deleted = p ∷ h.deleted }) k f e in
          let s =
            ap
              (λ b.
                sweep ps (if b then reclaim_later p h else record h { deleted = p ∷ h.deleted }))
              (same ∙ o) in
          record {
            kept =
                ap (λ g. g.to_reclaim) s
                ∙ w.kept
                ∙ sym (
                    ap (λ b. selected outstanding ps (if b then p ∷ h.to_reclaim else h.to_reclaim))
                      o);
            gone =
                ap (λ g. g.deleted) s
                ∙ w.gone
                ∙ sym (
                    ap
                      (λ b.
                        selected (λ q. not (outstanding q)) ps
                          (if not b then p ∷ h.deleted else h.deleted))
                      o);
          }
    ]

-- delete_nodes_with_no_hazards deletes, of the nodes to reclaim, those that are in no slot, and
-- keeps the others, the last one first.
delete_nodes_lem :
    (h : Hazards)
    → ((delete_nodes_with_no_hazards h).deleted
        ≡ selected (λ p. not (outstanding_hazard_pointers_for p h)) h.to_reclaim h.deleted)
      × ((delete_nodes_with_no_hazards h).to_reclaim
          ≡ selected (λ p. outstanding_hazard_pointers_for p h) h.to_reclaim [])
unfolding delete_nodes_with_no_hazards
delete_nodes_lem h =
    let w =
      sweep-Swept (λ p. outstanding_hazard_pointers_for p h) h.to_reclaim
        (record h { to_reclaim = [] }) h (λ p. refl) refl in
    (w.gone, w.kept)
