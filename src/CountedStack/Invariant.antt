-- ===== src/CountedStack/Invariant.antt =====
-- A step of one thread at one node of lock_free_stack keeps the invariant of all others.
use emb_linux.Prelude.{
  ℕ, ◌+◌, ◌<◌, ◌≡◌, ◌≢◌, sym, ap, ◌∙◌, subst, List, [], ◌∷◌, Option, none, some, arith, sum_change,
  pos_part, neg_part, update, update_ne, update_eq, update_self, eq-cases, inl, inr,
}
use emb_linux.CountedStack.{
  Counted, Phase, idle, pushing, increasing, holding, won, adding, failing, deleting, System,
}
use emb_linux.CountedStack.Roles.{
  Role, free, fresh, stacked, taken, shared, dying, is_some, refers, references, Counts, Knows,
  NotAmong, Linked, values, IsStackHistory, Inv,
}

-- The threads that the role of a node names.
abbrev pub owner : Role → Option ℕ
owner (fresh t) = some t
owner (taken t e) = some t
owner (dying t) = some t
owner _ = none

-- The counts of a node depend on what is stored there and on the number of references.
pub kept-Counts {ℓ} :
    {A : Type ℓ} (threads : ℕ) (s s' : System A) (n : ℕ) (r : Role)
    → s'.in_use n ≡ s.in_use n
    → references threads s' n ≡ references threads s n
    → s'.internal_count n ≡ s.internal_count n
    → s'.content n ≡ s.content n
    → Counts threads s n r
    → Counts threads s' n r
kept-Counts threads s s' n free f g i x (a, b) = (f ∙ a, g ∙ b)
kept-Counts threads s s' n (fresh u) f g i x (a, b, z, d) = (f ∙ a, g ∙ b, i ∙ z, ap is_some x ∙ d)
kept-Counts threads s s' n (stacked k) f g i x (a, b, e) =
    (f ∙ a, ap pos_part i ∙ b, omega (arith, e, g, ap neg_part i))
kept-Counts threads s s' n (taken u k) f g i x (a, b, e) =
    (f ∙ a, ap pos_part i ∙ b, omega (arith, e, g, ap neg_part i))
kept-Counts threads s s' n shared f g i x (a, b, e, l) =
    (f ∙ a, ap neg_part i ∙ b, omega (arith, e, g, ap pos_part i), omega (arith, l, g))
kept-Counts threads s s' n (dying u) f g i x (a, b) = (f ∙ a, g ∙ b)

module _ {ℓ} {A : Type ℓ} (threads t m : ℕ) (s s' : System A) (p : Phase A) where
  -- The step of thread `t` touches only its own phase and the node `m`.
  pub record Touches : Type ℓ where
    pub present : t < threads
    pub phases : s'.phases ≡ update s.phases t p
    pub in_use : (n : ℕ) → m ≢ n → s'.in_use n ≡ s.in_use n
    pub content : (n : ℕ) → m ≢ n → s'.content n ≡ s.content n
    pub internal_count : (n : ℕ) → m ≢ n → s'.internal_count n ≡ s.internal_count n
    pub next : (n : ℕ) → m ≢ n → s'.next n ≡ s.next n
    pub old_refers : (n : ℕ) → m ≢ n → refers (s.phases t) n ≡ 0
    pub new_refers : (n : ℕ) → m ≢ n → refers p n ≡ 0

  module _ (c : Touches) where
    phase_at : (u : ℕ) → s'.phases u ≡ update s.phases t p u
    phase_at u = ap (λ f. f u) c.phases

    -- How the number of references changes.
    pub references-change :
        (n : ℕ)
        → references threads s' n + refers (s.phases t) n ≡ references threads s n + refers p n
    references-change n = omega (
      arith,
      sum_change (λ u. refers (s.phases u) n) (λ u. refers (s'.phases u) n) t threads c.present
          (λ u ne.
            ap (λ k. refers k n) (sym (phase_at u ∙ update_ne s.phases t u p (λ e. ne (sym e))))),
      ap (λ k. refers k n) (phase_at t ∙ update_self s.phases t p),
    )

    same_references : (n : ℕ) → m ≢ n → references threads s' n ≡ references threads s n
    same_references n ne = omega (arith, references-change n, c.old_refers n ne, c.new_refers n ne)

    pub other-Counts : (n : ℕ) (r : Role) → m ≢ n → Counts threads s n r → Counts threads s' n r
    other-Counts n r ne h =
        kept-Counts threads s s' n r (c.in_use n ne) (same_references n ne) (c.internal_count n ne)
          (c.content n ne) h

-- A role that is not stacked is none of the stack's nodes.
pub NotAmong-role {ℓ} :
    {A : Type ℓ} (role : ℕ → Role) (content : ℕ → Option A) (next : ℕ → Counted) (c : Counted)
    (stack : List (ℕ × A)) (m : ℕ)
    → ((e : ℕ) → role m ≢ stacked e)
    → Linked role content next c stack
    → NotAmong m stack
NotAmong-role role content next c [] m h l = tt
NotAmong-role role content next c ((n, x) ∷ rest) m h l = (
  (λ e. h c.external_count (ap role e ∙ l.1)),
  NotAmong-role role content next (next n) rest m h l.4,
)

-- What happens at a node outside the stack does not unlink it.
pub Linked-off {ℓ} :
    {A : Type ℓ} (role role' : ℕ → Role) (content content' : ℕ → Option A)
    (next next' : ℕ → Counted) (c : Counted) (stack : List (ℕ × A)) (m : ℕ)
    → NotAmong m stack
    → ((n : ℕ) → m ≢ n → role' n ≡ role n)
    → ((n : ℕ) → m ≢ n → content' n ≡ content n)
    → ((n : ℕ) → m ≢ n → next' n ≡ next n)
    → Linked role content next c stack
    → Linked role' content' next' c stack
Linked-off role role' content content' next next' c [] m a f g h l = l
Linked-off {A = A} role role' content content' next next' c ((n, x) ∷ rest) m a f g h l = (
  l.0,
  f n a.0 ∙ l.1,
  g n a.0 ∙ l.2,
  l.3,
  subst (λ d. Linked role' content' next' d rest) (sym (h n a.0))
      (Linked-off role role' content content' next next' (next n) rest m a.1 f g h l.4),
)

-- Only the two words of a counted pointer matter.
pub Linked-head {ℓ} :
    {A : Type ℓ} (role : ℕ → Role) (content : ℕ → Option A) (next : ℕ → Counted) (c d : Counted)
    (stack : List (ℕ × A))
    → c.ptr ≡ d.ptr
    → c.external_count ≡ d.external_count
    → Linked role content next c stack
    → Linked role content next d stack
Linked-head role content next c d [] e f l = record { null = sym e ∙ l.null }
Linked-head role content next c d ((n, x) ∷ rest) e f l =
    (sym e ∙ l.0, l.1 ∙ ap stacked f, l.2, l.3, l.4)

-- A thread other than the owner of the node knows what it knew.
pub other-Knows {ℓ} :
    {A : Type ℓ} (role role' : ℕ → Role) (content content' : ℕ → Option A) (m u : ℕ) (k : Phase A)
    → ((n : ℕ) → m ≢ n → role' n ≡ role n)
    → ((n : ℕ) → m ≢ n → content' n ≡ content n)
    → owner (role m) ≢ some u
    → Knows role content u k
    → Knows role' content' u k
other-Knows role role' content content' m u idle f g o h = tt
other-Knows role role' content content' m u (pushing n) f g o h =
    f n (λ e. o (ap (λ j. owner (role j)) e ∙ ap owner h)) ∙ h
other-Knows role role' content content' m u (increasing old) f g o h = tt
other-Knows role role' content content' m u (holding old) f g o h = tt
other-Knows role role' content content' m u (won old) f g o h =
    let ne : m ≢ old.ptr = λ e. o (ap (λ j. owner (role j)) e ∙ ap owner h.0) in
    (f old.ptr ne ∙ h.0, ap is_some (g old.ptr ne) ∙ h.1)
other-Knows role role' content content' m u (adding old) f g o h =
    f old.ptr (λ e. o (ap (λ j. owner (role j)) e ∙ ap owner h)) ∙ h
other-Knows role role' content content' m u (failing n later) f g o h = tt
other-Knows role role' content content' m u (deleting n after) f g o h =
    f n (λ e. o (ap (λ j. owner (role j)) e ∙ ap owner h)) ∙ h

module _ {ℓ} {A : Type ℓ} (threads t m : ℕ) (s s' : System A) (p : Phase A) where
  -- What a step has to show at its own node and thread.
  pub record Shows (role role' : ℕ → Role) (stack' : List (ℕ × A)) : Type ℓ where
    pub touches : Touches threads t m s s' p
    pub roles : (n : ℕ) → m ≢ n → role' n ≡ role n
    pub null_free : m ≡ 0 → role' m ≡ free
    pub others :
        (u : ℕ) (k : Phase A) → u ≢ t → Knows role s.content u k → Knows role' s'.content u k
    pub own_counts : Counts threads s' m (role' m)
    pub own_knows : Knows role' s'.content t p
    pub relinked : Linked role' s'.content s'.next s'.head stack'
    pub extended : IsStackHistory s'.history (values stack')

  pub Shows-Inv :
      (role role' : ℕ → Role) (stack stack' : List (ℕ × A))
      → Inv threads role stack s
      → Shows role role' stack'
      → Inv threads role' stack' s'
  Shows-Inv role role' stack stack' v w = record {
    null_free = elim (eq-cases m 0) [
      | inl e ↦ ap role' (sym e) ∙ w.null_free e
      | inr e ↦ w.roles 0 e ∙ v.null_free
    ];
    counts = λ n. elim (eq-cases m n) [
      | inl e ↦ subst (λ j. Counts threads s' j (role' j)) e w.own_counts
      | inr e ↦
          subst (Counts threads s' n) (sym (w.roles n e))
            (other-Counts threads t m s s' p w.touches n (role n) e (v.counts n))
    ];
    knows = λ u a.
        let at = phase_at threads t m s s' p w.touches u in
        elim (eq-cases t u) [
          | inl e ↦
              subst (Knows role' s'.content u) (sym (at ∙ update_eq s.phases t u p e))
                (subst (λ j. Knows role' s'.content j p) e w.own_knows)
          | inr e ↦
              subst (Knows role' s'.content u) (sym (at ∙ update_ne s.phases t u p e))
                (w.others u (s.phases u) (λ f. e (sym f)) (v.knows u a))
        ];
    linked = w.relinked;
    history = w.extended;
  }
