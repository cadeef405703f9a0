-- ===== src/TreiberStack/Invariant.antt =====
-- The nodes of the stack and what the threads know of them, when one thread pops.
use emb_linux.Prelude.{
  ◌==◌, ==→eq, false→ne, Bool-cases, inl, inr, ℕ, ◌≡◌, ◌≢◌, refl, sym, subst, List, [], ◌∷◌, ◌++◌,
  map, Bool, true, false, update, update_ne, update_eq,
}
use emb_linux.Chain.{Chain, NotIn, Distinct}
use emb_linux.TreiberStack.{
  Phase, idle, fresh, pushing, popping, swinging, won, Event, pushed, popped, System,
}

-- A history, the last event first, is one of a stack that ends with these values.
abbrev pub IsStackHistory {ℓ} : {A : Type ℓ} → List (Event A) → List A → Type ℓ
IsStackHistory [] vs = vs ≡ []
IsStackHistory {A} (pushed x ∷ earlier) vs =
    (ws : List A) × (vs ≡ x ∷ ws) × IsStackHistory earlier ws
IsStackHistory (popped x ∷ earlier) vs = IsStackHistory earlier (x ∷ vs)

abbrev pub all_popped {ℓ} : {A : Type ℓ} → List (Event A) → List A
all_popped [] = []
all_popped (pushed x ∷ es) = all_popped es
all_popped (popped x ∷ es) = x ∷ all_popped es

-- The node that a thread may use, 0 for none.
abbrev pub holds : Phase → ℕ
holds idle = 0
holds (fresh n) = n
holds (pushing n) = n
holds (popping old) = old
holds (swinging old n) = old
holds (won old) = old

-- The node that is a thread's own.
abbrev pub owns : Phase → ℕ
owns idle = 0
owns (fresh n) = n
owns (pushing n) = n
owns (popping old) = 0
owns (swinging old n) = 0
owns (won old) = old

abbrev pub in_pop : Phase → Bool
in_pop idle = false
in_pop (fresh n) = false
in_pop (pushing n) = false
in_pop (popping old) = true
in_pop (swinging old n) = true
in_pop (won old) = true

-- What a thread has read of its node is still so, and the node is not null.
abbrev pub Knows : (ℕ → ℕ) → Phase → Type 0
Knows next idle = Unit
Knows next (fresh n) = n ≢ 0
Knows next (pushing n) = n ≢ 0
Knows next (popping old) = Unit
Knows next (swinging old n) = (old ≢ 0) × (next old ≡ n)
Knows next (won old) = old ≢ 0

-- What is popped and not yet returned.
abbrev pub in_hand {ℓ} : {A : Type ℓ} → (ℕ → A) → Phase → List A
in_hand content (won old) = content old ∷ []
in_hand content idle = []
in_hand content (fresh n) = []
in_hand content (pushing n) = []
in_hand content (popping old) = []
in_hand content (swinging old n) = []

-- `nodes` are the nodes of the stack from the head on, and thread `p` is the one that pops.
pub record Inv {ℓ} {A : Type ℓ} (p : ℕ) (nodes : List ℕ) (s : System A) : Type ℓ where
  pub chain : Chain 0 s.next s.head nodes
  pub distinct : Distinct nodes
  pub unused : (n : ℕ) → s.in_use n ≡ false → NotIn n nodes
  pub held : (t : ℕ) → holds (s.phases t) ≢ 0 → s.in_use (holds (s.phases t)) ≡ true
  pub apart : (t u : ℕ) → t ≢ u → holds (s.phases t) ≢ 0 → holds (s.phases t) ≢ holds (s.phases u)
  pub owned : (t : ℕ) → owns (s.phases t) ≢ 0 → NotIn (owns (s.phases t)) nodes
  pub popper : (t : ℕ) → in_pop (s.phases t) ≡ true → t ≡ p
  pub knows : (t : ℕ) → Knows s.next (s.phases t)
  pub history : IsStackHistory s.history (map s.content nodes)
  pub results : all_popped s.history ≡ in_hand s.content (s.phases p) ++ s.results

-- A property of every thread, after the phase of one has changed.
pub for_all-update {ℓ} :
    (P : ℕ → Phase → Type ℓ) (f : ℕ → Phase) (t : ℕ) (q : Phase)
    → P t q
    → ((u : ℕ) → u ≢ t → P u (f u))
    → (u : ℕ) → P u (update f t q u)
for_all-update P f t q here there u = elim (Bool-cases (u == t)) [
  | inl k ↦
      let e : u ≡ t = ==→eq u t k in
      subst (λ r. P u r) (sym (update_eq f t u q (sym e))) (subst (λ k. P k q) (sym e) here)
  | inr k ↦
      let ne : u ≢ t = false→ne u t k in
      subst (λ r. P u r) (sym (update_ne f t u q (λ e. ne (sym e)))) (there u ne)
]

-- What a step of thread `t` to phase `q` must do for the threads to be as they should.
pub record Step (p t : ℕ) (q : Phase) (nodes : List ℕ) (f : ℕ → Phase) (in_use : ℕ → Bool)
    (next : ℕ → ℕ) : Type 0 where
  pub mine_held : holds q ≢ 0 → in_use (holds q) ≡ true
  pub others_held : (u : ℕ) → u ≢ t → holds (f u) ≢ 0 → in_use (holds (f u)) ≡ true
  pub mine_apart : (u : ℕ) → u ≢ t → holds q ≢ 0 → holds (f u) ≢ holds q
  pub mine_owned : owns q ≢ 0 → NotIn (owns q) nodes
  pub others_owned : (u : ℕ) → u ≢ t → owns (f u) ≢ 0 → NotIn (owns (f u)) nodes
  pub mine_popper : in_pop q ≡ true → t ≡ p
  pub mine_known : Knows next q
  pub others_known : (u : ℕ) → u ≢ t → Knows next (f u)

module _ {ℓ} {A : Type ℓ} {p : ℕ} {nodes : List ℕ} {s : System A} (v : Inv p nodes s) (t : ℕ)
    (q : Phase) where
  apart-update :
      ((u : ℕ) → u ≢ t → holds q ≢ 0 → holds (s.phases u) ≢ holds q)
      → (u w : ℕ) → u ≢ w
      → holds (update s.phases t q u) ≢ 0
      → holds (update s.phases t q u) ≢ holds (update s.phases t q w)
  apart-update mine =
      for_all-update
        (λ u r. (w : ℕ) → u ≢ w → holds r ≢ 0 → holds r ≢ holds (update s.phases t q w)) s.phases t
        q
        (for_all-update (λ w r. t ≢ w → holds q ≢ 0 → holds q ≢ holds r) s.phases t q
          (λ ne. absurd (ne refl)) (λ w other ne nonzero e. mine w other nonzero (sym e)))
        (λ u other.
          for_all-update (λ w r. u ≢ w → holds (s.phases u) ≢ 0 → holds (s.phases u) ≢ holds r)
            s.phases t q (λ ne nonzero e. mine u other (subst (λ k. k ≢ 0) e nonzero) e)
            (λ w distinct ne nonzero. v.apart u w ne nonzero))

  pub Step-Inv :
      {nodes' : List ℕ} (s' : System A)
      → s'.phases ≡ update s.phases t q
      → Step p t q nodes' s.phases s'.in_use s'.next
      → Chain 0 s'.next s'.head nodes'
      → Distinct nodes'
      → ((n : ℕ) → s'.in_use n ≡ false → NotIn n nodes')
      → IsStackHistory s'.history (map s'.content nodes')
      → all_popped s'.history ≡ in_hand s'.content (update s.phases t q p) ++ s'.results
      → Inv p nodes' s'
  Step-Inv {nodes'} s' phases w chain distinct unused history results = record {
    chain = chain;
    distinct = distinct;
    unused = unused;
    held =
        subst (λ f. (u : ℕ) → holds (f u) ≢ 0 → s'.in_use (holds (f u)) ≡ true) (sym phases)
          (for_all-update (λ u r. holds r ≢ 0 → s'.in_use (holds r) ≡ true) s.phases t q w.mine_held
            w.others_held);
    apart =
        subst (λ f. (u x : ℕ) → u ≢ x → holds (f u) ≢ 0 → holds (f u) ≢ holds (f x)) (sym phases)
          (apart-update w.mine_apart);
    owned =
        subst (λ f. (u : ℕ) → owns (f u) ≢ 0 → NotIn (owns (f u)) nodes') (sym phases)
          (for_all-update (λ u r. owns r ≢ 0 → NotIn (owns r) nodes') s.phases t q w.mine_owned
            w.others_owned);
    popper =
        subst (λ f. (u : ℕ) → in_pop (f u) ≡ true → u ≡ p) (sym phases)
          (for_all-update (λ u r. in_pop r ≡ true → u ≡ p) s.phases t q w.mine_popper
            (λ u ne. v.popper u));
    knows =
        subst (λ f. (u : ℕ) → Knows s'.next (f u)) (sym phases)
          (for_all-update (λ u r. Knows s'.next r) s.phases t q w.mine_known w.others_known);
    history = history;
    results =
        subst (λ f. all_popped s'.history ≡ in_hand s'.content (f p) ++ s'.results) (sym phases)
          results;
  }
