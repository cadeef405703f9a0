-- ===== src/TreiberStack/Pops.antt =====
-- Each step of pop, when one thread pops.
use emb_linux.Prelude.{
  ◌==◌, ==→eq, false→ne, ℕ, ◌≡◌, ◌≢◌, refl, sym, ap, ◌∙◌, subst, List, [], ◌∷◌, ◌++◌, map, true,
  false, update_ne, update_eq, true-ne_false, Bool-cases, inl, inr,
}
use emb_linux.Chain.{Chain, NotIn, Distinct, Chain-first}
use emb_linux.TreiberStack.{Phase, idle, popping, swinging, won, System, set_phase, unlink, delete}
use emb_linux.TreiberStack.Invariant.{
  holds, owns, in_pop, Knows, in_hand, Inv, Step-Inv, IsStackHistory,
}
use emb_linux.TreiberStack.Moves.{not_in_pop, no_result}

module _ {ℓ} {A : Type ℓ} {p : ℕ} {nodes : List ℕ} {s : System A} (v : Inv p nodes s) (t : ℕ) where
  -- A thread that only comes to hold a node, or none.
  set_phase-Inv :
      (q : Phase)
      → in_hand s.content (s.phases t) ≡ []
      → in_hand s.content q ≡ []
      → (in_pop q ≡ true → t ≡ p)
      → (holds q ≢ 0 → s.in_use (holds q) ≡ true)
      → ((u : ℕ) → u ≢ t → holds q ≢ 0 → holds (s.phases u) ≢ holds q)
      → owns q ≡ 0
      → Knows s.next q
      → Inv p nodes (set_phase t q s)
  set_phase-Inv q empty empty' popper used apart free known =
      Step-Inv v t q (set_phase t q s) refl
        (record {
          mine_held = used;
          others_held = λ u ne. v.held u;
          mine_apart = apart;
          mine_owned = λ k. absurd (k free);
          others_owned = λ u ne. v.owned u;
          mine_popper = popper;
          mine_known = known;
          others_known = λ u ne. v.knows u;
        })
        v.chain v.distinct v.unused v.history
        (no_result v t s.content q empty empty' (λ u ne. refl))

  -- A pop reads the head.
  pub load_head-Inv :
      t ≡ p → in_hand s.content (s.phases t) ≡ [] → Inv p nodes (set_phase t (popping s.head) s)
  load_head-Inv here empty =
      set_phase-Inv (popping s.head) empty refl (λ k. here) used apart refl tt
    where
      not_apart : s.head ≢ 0 → NotIn s.head nodes → ⊥
      not_apart nonzero h =
          let (js, e) = Chain-first 0 s.next s.head nodes nonzero v.chain in
          (subst (NotIn s.head) e h).0 refl

      used : s.head ≢ 0 → s.in_use s.head ≡ true
      used nonzero = elim (Bool-cases (s.in_use s.head)) [
        | inl e ↦ e
        | inr e ↦ absurd (not_apart nonzero (v.unused s.head e))
      ]

      apart : (u : ℕ) → u ≢ t → s.head ≢ 0 → holds (s.phases u) ≢ s.head
      apart u ne nonzero k = elim (Bool-cases (in_pop (s.phases u))) [
        | inl e ↦ ne (v.popper u e ∙ sym here)
        | inr e ↦
            let own = not_in_pop (s.phases u) e ∙ k in
            not_apart nonzero
              (subst (λ i. NotIn i nodes) own (v.owned u (λ z. nonzero (sym own ∙ z))))
      ]

  pub finish-Inv : (old : ℕ) → s.phases t ≡ popping old → Inv p nodes (set_phase t idle s)
  finish-Inv old e =
      set_phase-Inv idle (ap (in_hand s.content) e) refl (λ k. absurd (true-ne_false (sym k)))
        (λ k. absurd (k refl)) (λ u ne k. absurd (k refl)) refl tt

  pub read_next-Inv :
      (old : ℕ)
      → s.phases t ≡ popping old
      → old ≢ 0
      → Inv p nodes (set_phase t (swinging old (s.next old)) s)
  read_next-Inv old e nonzero =
      set_phase-Inv (swinging old (s.next old)) (ap (in_hand s.content) e) refl
        (λ k. v.popper t (ap in_pop e))
        (λ k. subst (λ r. holds r ≢ 0 → s.in_use (holds r) ≡ true) e (v.held t) k)
        (λ u ne k h.
          v.apart t u (λ z. ne (sym z)) (subst (λ r. holds r ≢ 0) (sym e) nonzero)
            (ap holds e ∙ sym h))
        refl (nonzero, refl)

  pub unlink-Inv :
      (old n : ℕ)
      → s.phases t ≡ swinging old n
      → s.head ≡ old
      → (rest : List ℕ) × Inv p rest (unlink t old n s)
  unlink-Inv old n e top =
      let (rest, split) = Chain-first 0 s.next s.head nodes (λ z. known.0 (sym top ∙ z)) v.chain in
      (rest, after rest (split ∙ ap (λ i. i ∷ rest) top))
    where
      known : (old ≢ 0) × (s.next old ≡ n)
      known = subst (Knows s.next) e (v.knows t)

      here : p ≡ t
      here = sym (v.popper t (ap in_pop e))

      after : (rest : List ℕ) → nodes ≡ old ∷ rest → Inv p rest (unlink t old n s)
      after rest split =
          Step-Inv v t (won old) (unlink t old n s) refl
            (record {
              mine_held = λ k. subst (λ r. holds r ≢ 0 → s.in_use (holds r) ≡ true) e (v.held t) k;
              others_held = λ u ne. v.held u;
              mine_apart = λ u ne k h.
                  v.apart t u (λ z. ne (sym z)) (subst (λ r. holds r ≢ 0) (sym e) known.0)
                    (ap holds e ∙ sym h);
              mine_owned = λ k. (subst Distinct split v.distinct).0;
              others_owned = λ u ne k. (subst (NotIn (owns (s.phases u))) split (v.owned u k)).1;
              mine_popper = λ k. sym here;
              mine_known = known.0;
              others_known = λ u ne. v.knows u;
            })
            (subst (λ i. Chain 0 s.next i rest) known.1
              (subst (Chain 0 s.next s.head) split v.chain).2)
            (subst Distinct split v.distinct).1 (λ m h. (subst (NotIn m) split (v.unused m h)).1)
            (subst (λ ns. IsStackHistory s.history (map s.content ns)) split v.history)
            (ap (◌∷◌ (s.content old))
                (v.results ∙ ap (λ r. in_hand s.content r ++ s.results) (ap s.phases here ∙ e))
              ∙ ap (λ r. in_hand s.content r ++ s.results)
                  (sym (update_eq s.phases t p (won old) (sym here))))

  pub delete-Inv : (old : ℕ) → s.phases t ≡ won old → Inv p nodes (delete t old s)
  delete-Inv old e =
      Step-Inv v t idle (delete t old s) refl
        (record {
          mine_held = λ k. absurd (k refl);
          others_held = λ u ne k.
              update_ne s.in_use old (holds (s.phases u)) false (λ z. elsewhere u ne (sym z))
              ∙ v.held u k;
          mine_apart = λ u ne k. absurd (k refl);
          mine_owned = λ k. absurd (k refl);
          others_owned = λ u ne. v.owned u;
          mine_popper = λ k. absurd (true-ne_false (sym k));
          mine_known = tt;
          others_known = λ u ne. v.knows u;
        })
        v.chain v.distinct
        (λ m h. elim (Bool-cases (m == old)) [
          | inl k ↦
              subst (λ i. NotIn i nodes) (sym (==→eq m old k))
                (subst (λ r. owns r ≢ 0 → NotIn (owns r) nodes) e (v.owned t) nonzero)
          | inr k ↦
              v.unused m (sym (update_ne s.in_use old m false (λ z. false→ne m old k (sym z))) ∙ h)
        ])
        v.history
        (v.results
          ∙ ap (λ r. in_hand s.content r ++ s.results) (ap s.phases here ∙ e)
          ∙ ap (λ r. in_hand s.content r ++ (s.content old ∷ s.results))
              (sym (update_eq s.phases t p idle (sym here))))
    where
      here : p ≡ t
      here = sym (v.popper t (ap in_pop e))

      nonzero : old ≢ 0
      nonzero = subst (Knows s.next) e (v.knows t)

      elsewhere : (u : ℕ) → u ≢ t → holds (s.phases u) ≢ old
      elsewhere u ne k =
          v.apart t u (λ z. ne (sym z)) (subst (λ r. holds r ≢ 0) (sym e) nonzero)
            (ap holds e ∙ sym k)
