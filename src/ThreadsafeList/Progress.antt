-- ===== src/ThreadsafeList/Progress.antt =====
-- Where the threads of a threadsafe_list stand, and for which locks they wait.
use emb_linux.Prelude.{
  ℕ, zero, suc, ◌<◌, ◌≡◌, ◌≢◌, refl, sym, ap, ◌∙◌, subst, List, [], ◌∷◌, Option, none, some,
  some_inj, none-ne_some, inl, inr, eq-cases, Option-cases, true, if◌then◌else◌, ◌==◌, ==-false,
  eq→==, arith,
}
use emb_linux.ThreadsafeList.{
  Walk, Phase, idle, pushing, linking, entering, standing, reaching, visiting, dropping, System,
  new, Choice, run,
}
use emb_linux.ThreadsafeList.Roles.{Role, listed, is_some, Keeps, Knows, Has, Inv}
use emb_linux.ThreadsafeList.Safety.{run-Proceeds, new-Sound}

-- From a node on, `next` leads through these nodes, all in use and with data, to null.
abbrev pub Leads {ℓ} : {A : Type ℓ} → System A → ℕ → List ℕ → Type 0
Leads s c [] = s.next c ≡ 0
Leads s c (n ∷ ns) =
    (s.next c ≡ n) × (n ≢ 0) × (s.in_use n ≡ true) × (is_some (s.content n) ≡ true) × Leads s n ns

-- The mutex that a thread asks for in its next step, if it asks for one.
abbrev pub wants {ℓ} : {A : Type ℓ} → System A → Phase A → Option ℕ
wants s (pushing n) = some 0
wants s (entering w) = some 0
wants s (standing c w) = if s.next c == 0 then none else some (s.next c)
wants s _ = none

-- A thread in a call whose next step does not wait.
abbrev pub CanGoOn {ℓ} : {A : Type ℓ} → System A → ℕ → Type ℓ
CanGoOn s u = (s.phases u ≢ idle) × ((m : ℕ) → wants s (s.phases u) ≡ some m → s.owner m ≡ none)

module _ {ℓ} {A : Type ℓ} (threads : ℕ) (role : ℕ → Role) (rank : ℕ → ℕ) (s : System A)
    (v : Inv threads role rank s) where
  Leads-from : (k c : ℕ) → rank c < k → role c ≡ listed → (nodes : List ℕ) × Leads s c nodes
  Leads-from zero c small l = absurd (omega (arith, small))
  Leads-from (suc k) c small l = elim (eq-cases (s.next c) 0) [
    | inl e ↦ ([], e)
    | inr e ↦
        let (m, lower) = v.ordered.follows c l e in
        let keeps = subst (Keeps s (s.next c)) m (v.keeps (s.next c)) in
        let (nodes, rest) = Leads-from k (s.next c) (omega (arith, small, lower)) m in
        (s.next c ∷ nodes, (refl, e, keeps.0, keeps.1 e, rest))
  ]

  pub Leads-head : (nodes : List ℕ) × Leads s 0 nodes
  Leads-head = Leads-from (suc (rank 0)) 0 (omega arith) v.head

  abbrev Unblocked : Type ℓ
  Unblocked = (u : ℕ) × (u < threads) × CanGoOn s u

  -- A thread that holds a lock and stands in a phase which asks for no lock.
  asks_nothing :
      (u : ℕ) (q : Phase A) → u < threads → s.phases u ≡ q → q ≢ idle → wants s q ≡ none → Unblocked
  asks_nothing u q less e busy free_to_go = (
    u,
    less,
    (
      (λ f. busy (sym e ∙ f)),
      λ m f. absurd (none-ne_some (sym free_to_go ∙ sym (ap (wants s) e) ∙ f)),
    ),
  )

  -- A thread that asks for this lock, when nobody has it.
  asks_free :
      (u m : ℕ) (q : Phase A)
      → u < threads
      → s.phases u ≡ q
      → q ≢ idle
      → wants s q ≡ some m
      → s.owner m ≡ none
      → Unblocked
  asks_free u m q less e busy asks unowned = (
    u,
    less,
    (
      (λ f. busy (sym e ∙ f)),
      λ k f. subst (λ j. s.owner j ≡ none) (some_inj (sym asks ∙ sym (ap (wants s) e) ∙ f)) unowned,
    ),
  )

  standing-ne_idle : (c : ℕ) (w : Walk A) → standing c w ≢ idle
  standing-ne_idle c w h = cc

  -- From the holder of one lock to the holder of the next one, until one can go on.
  holder-Unblocked :
      (k n u : ℕ) (q : Phase A)
      → rank n < k
      → s.owner n ≡ some u
      → u < threads
      → s.phases u ≡ q
      → Has n q
      → Unblocked
  holder-Unblocked k n u idle small o less e h = absurd h
  holder-Unblocked k n u (pushing m) small o less e h = absurd h
  holder-Unblocked k n u (linking m) small o less e h = asks_nothing u _ less e (λ f. cc) refl
  holder-Unblocked k n u (entering w) small o less e h = absurd h
  holder-Unblocked k n u (reaching c m w) small o less e h = asks_nothing u _ less e (λ f. cc) refl
  holder-Unblocked k n u (visiting m w) small o less e h = asks_nothing u _ less e (λ f. cc) refl
  holder-Unblocked k n u (dropping c m w) small o less e h = asks_nothing u _ less e (λ f. cc) refl
  holder-Unblocked zero n u (standing c w) small o less e h = absurd (omega (arith, small))
  holder-Unblocked (suc k) n u (standing c w) small o less e h = elim (eq-cases (s.next c) 0) [
    | inl z ↦
        asks_nothing u _ less e (standing-ne_idle c w)
          (ap (λ b. if b then none else some (s.next c)) (eq→== (s.next c) 0 z))
    | inr z ↦
        let asks : wants s (standing c w) ≡ some (s.next c) =
          ap (λ b. if b then none else some (s.next c)) (==-false (s.next c) 0 z) in
        let in_list : role c ≡ listed = (subst (Knows role s u) e (v.knows u less)).0 in
        elim (Option-cases (s.owner (s.next c))) [
          | inl f ↦ asks_free u (s.next c) _ less e (standing-ne_idle c w) asks f
          | inr (t, f) ↦
              let (less', has) = v.held (s.next c) t f in
              holder-Unblocked k (s.next c) t (s.phases t)
                (omega (arith, small, (v.ordered.follows c in_list z).1, ap rank h)) f less' refl
                has
        ]
  ]

  -- A thread that asks for the lock of the head.
  head-Unblocked :
      (t : ℕ) (q : Phase A)
      → t < threads
      → s.phases t ≡ q
      → q ≢ idle
      → wants s q ≡ some 0
      → Unblocked
  head-Unblocked t q less e busy asks = elim (Option-cases (s.owner 0)) [
    | inl f ↦ asks_free t 0 q less e busy asks f
    | inr (u, f) ↦
        let (less', has) = v.held 0 u f in
        holder-Unblocked (suc (rank 0)) 0 u (s.phases u) (omega arith) f less' refl has
  ]

  busy-Unblocked : (t : ℕ) (q : Phase A) → t < threads → s.phases t ≡ q → q ≢ idle → Unblocked
  busy-Unblocked t idle less e busy = absurd (busy refl)
  busy-Unblocked t (pushing n) less e busy = head-Unblocked t _ less e busy refl
  busy-Unblocked t (entering w) less e busy = head-Unblocked t _ less e busy refl
  busy-Unblocked t (linking n) less e busy = asks_nothing t _ less e busy refl
  busy-Unblocked t (reaching c n w) less e busy = asks_nothing t _ less e busy refl
  busy-Unblocked t (visiting n w) less e busy = asks_nothing t _ less e busy refl
  busy-Unblocked t (dropping c n w) less e busy = asks_nothing t _ less e busy refl
  busy-Unblocked t (standing c w) less e busy =
      let (in_list, own) = subst (Knows role s t) e (v.knows t less) in
      holder-Unblocked (suc (rank c)) c t (standing c w) (omega arith) own less e refl

  pub all-Unblocked : (t : ℕ) → t < threads → s.phases t ≢ idle → Unblocked
  all-Unblocked t less busy = busy-Unblocked t (s.phases t) less refl busy

-- Any number of threads push, visit, search and remove in a new list in any interleaving, addresses being
-- given again after a `delete`: no step uses a node that is not in use, and at every time `next` leads from
-- the head through nodes that are in use and have data to null.
pub run-Leads {ℓ} :
    {A : Type ℓ} (threads : ℕ) (schedule : List (ℕ × Choice A))
    → (s : System A) × (run threads schedule new ≡ some s) × ((nodes : List ℕ) × Leads s 0 nodes)
run-Leads threads schedule =
    let (s, e, (role, rank, v)) = run-Proceeds threads schedule new (new-Sound threads) in
    (s, e, Leads-head threads role rank s v)

-- Walking hand over hand does not deadlock: after any interleaving, if some thread is in a call, then some
-- thread is in a call whose next step needs no mutex or one that nobody has.
pub run-unblocked {ℓ} :
    {A : Type ℓ} (threads : ℕ) (schedule : List (ℕ × Choice A)) (s : System A) (t : ℕ)
    → run threads schedule new ≡ some s
    → t < threads
    → s.phases t ≢ idle
    → (u : ℕ) × (u < threads) × CanGoOn s u
run-unblocked threads schedule s t e less busy =
    let (s', e', (role, rank, v)) = run-Proceeds threads schedule new (new-Sound threads) in
    let same : s' ≡ s = some_inj (sym e' ∙ e) in
    all-Unblocked threads role rank s (subst (Inv threads role rank) same v) t less busy
