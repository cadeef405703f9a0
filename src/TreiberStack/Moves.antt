-- ===== src/TreiberStack/Moves.antt =====
-- Each step of push, when one thread pops.
use emb_linux.Prelude.{
  ◌==◌, ==→eq, false→ne, ℕ, ◌≡◌, ◌≢◌, refl, sym, ap, ◌∙◌, subst, List, [], ◌∷◌, ◌++◌, map, true,
  false, update, update_ne, update_self, true-ne_false, Bool-cases, inl, inr,
}
use emb_linux.Chain.{Chain, NotIn, Chain-update}
use emb_linux.TreiberStack.{
  Phase, idle, fresh, pushing, popping, swinging, won, System, construct, read_head, link,
}
use emb_linux.TreiberStack.Invariant.{
  holds, owns, in_pop, Knows, in_hand, Inv, for_all-update, Step-Inv, all_popped, IsStackHistory,
}

Knows-update :
    (next : ℕ → ℕ) (n m : ℕ) (r : Phase) → holds r ≢ n → Knows next r → Knows (update next n m) r
Knows-update next n m idle ne k = tt
Knows-update next n m (fresh a) ne k = k
Knows-update next n m (pushing a) ne k = k
Knows-update next n m (popping a) ne k = tt
Knows-update next n m (swinging a b) ne k = (k.0, update_ne next n a m (λ e. ne (sym e)) ∙ k.1)
Knows-update next n m (won a) ne k = k

in_hand-update {ℓ} :
    {A : Type ℓ} (content : ℕ → A) (n : ℕ) (x : A) (r : Phase)
    → holds r ≢ n
    → in_hand content r ≡ in_hand (update content n x) r
in_hand-update content n x idle ne = refl
in_hand-update content n x (fresh a) ne = refl
in_hand-update content n x (pushing a) ne = refl
in_hand-update content n x (popping a) ne = refl
in_hand-update content n x (swinging a b) ne = refl
in_hand-update content n x (won a) ne =
    ap (λ y. y ∷ []) (sym (update_ne content n a x (λ e. ne (sym e))))

map-update {ℓ} :
    {A : Type ℓ} (content : ℕ → A) (n : ℕ) (x : A) (nodes : List ℕ)
    → NotIn n nodes
    → map content nodes ≡ map (update content n x) nodes
map-update content n x [] h = refl
map-update content n x (m ∷ ms) h =
    ap (λ y. y ∷ map content ms) (sym (update_ne content n m x h.0))
    ∙ ap (◌∷◌ (update content n x m)) (map-update content n x ms h.1)

pub owns-holds : (r : Phase) → owns r ≢ 0 → owns r ≡ holds r
owns-holds idle ne = refl
owns-holds (fresh n) ne = refl
owns-holds (pushing n) ne = refl
owns-holds (popping n) ne = absurd (ne refl)
owns-holds (swinging n m) ne = absurd (ne refl)
owns-holds (won n) ne = refl

pub not_in_pop : (r : Phase) → in_pop r ≡ false → owns r ≡ holds r
not_in_pop idle e = refl
not_in_pop (fresh n) e = refl
not_in_pop (pushing n) e = refl
not_in_pop (popping n) e = absurd (true-ne_false e)
not_in_pop (swinging n m) e = absurd (true-ne_false e)
not_in_pop (won n) e = refl

module _ {ℓ} {A : Type ℓ} {p : ℕ} {nodes : List ℕ} {s : System A} (v : Inv p nodes s) (t : ℕ) where
  -- A thread with no result in hand goes to another such phase, and the contents in hand stay.
  pub no_result :
      (content : ℕ → A) (q : Phase)
      → in_hand s.content (s.phases t) ≡ []
      → in_hand content q ≡ []
      → ((u : ℕ) → u ≢ t → in_hand s.content (s.phases u) ≡ in_hand content (s.phases u))
      → all_popped s.history ≡ in_hand content (update s.phases t q p) ++ s.results
  no_result content q mine mine' others =
      v.results
      ∙ ap (λ xs. xs ++ s.results)
          (for_all-update (λ u r. in_hand s.content (s.phases u) ≡ in_hand content r) s.phases t q
            (mine ∙ sym mine') others p)

  pub construct-Inv :
      (x : A) (n : ℕ)
      → s.phases t ≡ idle
      → n ≢ 0
      → s.in_use n ≡ false
      → Inv p nodes (construct t x n s)
  construct-Inv x n e nonzero free =
      Step-Inv v t (fresh n) (construct t x n s) refl
        (record {
          mine_held = λ h. update_self s.in_use n true;
          others_held = λ u ne h.
              update_ne s.in_use n (holds (s.phases u)) true (λ k. elsewhere u (sym k))
              ∙ v.held u h;
          mine_apart = λ u ne h. elsewhere u;
          mine_owned = λ h. v.unused n free;
          others_owned = λ u ne. v.owned u;
          mine_popper = λ k. absurd (true-ne_false (sym k));
          mine_known = nonzero;
          others_known = λ u ne. Knows-update s.next n 0 (s.phases u) (elsewhere u) (v.knows u);
        })
        (Chain-update 0 s.next n 0 s.head nodes (v.unused n free) v.chain) v.distinct
        (λ m h. elim (Bool-cases (m == n)) [
          | inl k ↦ subst (λ i. NotIn i nodes) (sym (==→eq m n k)) (v.unused n free)
          | inr k ↦ v.unused m (sym (update_ne s.in_use n m true (λ z. false→ne m n k (sym z))) ∙ h)
        ])
        (subst (IsStackHistory s.history) (map-update s.content n x nodes (v.unused n free))
          v.history)
        (no_result (update s.content n x) (fresh n) (ap (in_hand s.content) e) refl
          (λ u ne. in_hand-update s.content n x (s.phases u) (elsewhere u)))
    where
      elsewhere : (u : ℕ) → holds (s.phases u) ≢ n
      elsewhere u k =
          true-ne_false
            (sym (subst (λ i. s.in_use i ≡ true) k (v.held u (λ z. nonzero (sym k ∙ z)))) ∙ free)

  -- A push reads the head, from either phase of a thread with a node of its own.
  pub read_head-Inv :
      (n : ℕ)
      → holds (s.phases t) ≡ n
      → owns (s.phases t) ≡ n
      → in_hand s.content (s.phases t) ≡ []
      → n ≢ 0
      → Inv p nodes (read_head t n s)
  read_head-Inv n h o empty nonzero =
      Step-Inv v t (pushing n) (read_head t n s) refl
        (record {
          mine_held = λ k. subst (λ i. s.in_use i ≡ true) h (v.held t (λ z. nonzero (sym h ∙ z)));
          others_held = λ u ne. v.held u;
          mine_apart = λ u ne k. elsewhere u ne;
          mine_owned = λ k. mine;
          others_owned = λ u ne. v.owned u;
          mine_popper = λ k. absurd (true-ne_false (sym k));
          mine_known = nonzero;
          others_known =
              λ u ne. Knows-update s.next n s.head (s.phases u) (elsewhere u ne) (v.knows u);
        })
        (Chain-update 0 s.next n s.head s.head nodes mine v.chain) v.distinct v.unused v.history
        (no_result s.content (pushing n) empty refl (λ u ne. refl))
    where
      elsewhere : (u : ℕ) → u ≢ t → holds (s.phases u) ≢ n
      elsewhere u ne k = v.apart t u (λ z. ne (sym z)) (λ z. nonzero (sym h ∙ z)) (h ∙ sym k)

      mine : NotIn n nodes
      mine = subst (λ i. NotIn i nodes) o (v.owned t (λ z. nonzero (sym o ∙ z)))

  pub link-Inv :
      (n : ℕ) → s.phases t ≡ pushing n → s.head ≡ s.next n → Inv p (n ∷ nodes) (link t n s)
  link-Inv n e top =
      Step-Inv v t idle (link t n s) refl
        (record {
          mine_held = λ k. absurd (k refl);
          others_held = λ u ne. v.held u;
          mine_apart = λ u ne k. absurd (k refl);
          mine_owned = λ k. absurd (k refl);
          others_owned =
              λ u ne k. ((λ z. elsewhere u ne (sym (owns-holds (s.phases u) k) ∙ z)), v.owned u k);
          mine_popper = λ k. absurd (true-ne_false (sym k));
          mine_known = tt;
          others_known = λ u ne. v.knows u;
        })
        (refl, nonzero, subst (λ i. Chain 0 s.next i nodes) top v.chain)
        (subst (λ r. owns r ≢ 0 → NotIn (owns r) nodes) e (v.owned t) nonzero, v.distinct)
        (λ m h. (
          (λ k. true-ne_false (sym (subst (λ i. s.in_use i ≡ true) (sym k) used) ∙ h)),
          v.unused m h,
        ))
        (map s.content nodes, refl, v.history)
        (no_result s.content idle (ap (in_hand s.content) e) refl (λ u ne. refl))
    where
      nonzero : n ≢ 0
      nonzero = subst (Knows s.next) e (v.knows t)

      used : s.in_use n ≡ true
      used = subst (λ r. holds r ≢ 0 → s.in_use (holds r) ≡ true) e (v.held t) nonzero

      elsewhere : (u : ℕ) → u ≢ t → holds (s.phases u) ≢ n
      elsewhere u ne k =
          v.apart t u (λ z. ne (sym z)) (subst (λ r. holds r ≢ 0) (sym e) nonzero)
            (ap holds e ∙ sym k)
