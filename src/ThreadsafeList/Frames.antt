-- ===== src/ThreadsafeList/Frames.antt =====
-- A step of one thread in threadsafe_list, and what the others know and hold.
use emb_linux.Prelude.{
  true, ℕ, ◌<◌, ◌≡◌, ◌≢◌, sym, ap, ◌∙◌, subst, some, update, update_eq, update_ne, inl, inr,
  eq-cases,
}
use emb_linux.ThreadsafeList.{
  Phase, idle, pushing, linking, entering, standing, reaching, visiting, dropping, System,
}
use emb_linux.ThreadsafeList.Roles.{
  Role, free, listed, private, is_some, Keeps, Knows, Has, Ordered, Inv,
}

module _ {ℓ} {A : Type ℓ} (threads t : ℕ) (p : Phase A) (role role' : ℕ → Role)
    (s s' : System A) where
  -- The step goes to phase `p` and changes only what no other thread has in hand.
  pub record Frame : Type ℓ where
    pub present : t < threads
    pub phases : s'.phases ≡ update s.phases t p
    pub owner_kept : (n u : ℕ) → u ≢ t → s.owner n ≡ some u → s'.owner n ≡ some u
    pub owner_back : (n u : ℕ) → u ≢ t → s'.owner n ≡ some u → s.owner n ≡ some u
    pub private_kept : (n u : ℕ) → u ≢ t → role n ≡ private u → role' n ≡ private u
    pub listed_kept : (n u : ℕ) → u ≢ t → s.owner n ≡ some u → role n ≡ listed → role' n ≡ listed
    pub next_kept : (n u : ℕ) → u ≢ t → s.owner n ≡ some u → s'.next n ≡ s.next n

  other-Knows : (u : ℕ) (q : Phase A) → Frame → u ≢ t → Knows role s u q → Knows role' s' u q
  other-Knows u idle f ne k = tt
  other-Knows u (pushing n) f ne k = f.private_kept n u ne k
  other-Knows u (linking n) f ne (a, o) = (f.private_kept n u ne a, f.owner_kept 0 u ne o)
  other-Knows u (entering w) f ne k = tt
  other-Knows u (standing c w) f ne (a, o) = (f.listed_kept c u ne o a, f.owner_kept c u ne o)
  other-Knows u (reaching c n w) f ne (a, o, e, z, b, q) = (
    f.listed_kept c u ne o a,
    f.owner_kept c u ne o,
    f.next_kept c u ne o ∙ e,
    z,
    f.listed_kept n u ne q b,
    f.owner_kept n u ne q,
  )
  other-Knows u (visiting n w) f ne (z, b, q) = (z, f.listed_kept n u ne q b, f.owner_kept n u ne q)
  other-Knows u (dropping c n w) f ne (a, o, b) =
      (f.listed_kept c u ne o a, f.owner_kept c u ne o, f.private_kept n u ne b)

  -- What a step has to show of its own.
  pub record Shows (rank' : ℕ → ℕ) : Type ℓ where
    pub frame : Frame
    pub head : role' 0 ≡ listed
    pub keeps : (n : ℕ) → Keeps s' n (role' n)
    pub ordered : Ordered role' rank' s'.next
    pub knows : Knows role' s' t p
    pub held : (n : ℕ) → s'.owner n ≡ some t → Has n p

  pub Shows-Inv :
      (rank rank' : ℕ → ℕ) → Inv threads role rank s → Shows rank' → Inv threads role' rank' s'
  Shows-Inv rank rank' v w =
      let f = w.frame in
      let at : (u : ℕ) → s'.phases u ≡ update s.phases t p u = λ u. ap (λ g. g u) f.phases in
      record {
        head = w.head;
        keeps = w.keeps;
        ordered = w.ordered;
        knows = λ u a. elim (eq-cases t u) [
          | inl e ↦
              subst (Knows role' s' u) (sym (at u ∙ update_eq s.phases t u p e))
                (subst (λ j. Knows role' s' j p) e w.knows)
          | inr e ↦
              subst (Knows role' s' u) (sym (at u ∙ update_ne s.phases t u p e))
                (other-Knows u (s.phases u) f (λ b. e (sym b)) (v.knows u a))
        ];
        held = λ n u o. elim (eq-cases t u) [
          | inl e ↦ (
            subst (λ j. j < threads) e f.present,
            subst (Has n) (sym (at u ∙ update_eq s.phases t u p e))
                (w.held n (subst (λ j. s'.owner n ≡ some j) (sym e) o)),
          )
          | inr e ↦
              let (a, h) = v.held n u (f.owner_back n u (λ b. e (sym b)) o) in
              (a, subst (Has n) (sym (at u ∙ update_ne s.phases t u p e)) h)
        ];
      }

-- There are roles and ranks that fit the state.
abbrev pub Sound {ℓ} : {A : Type ℓ} → ℕ → System A → Type ℓ
Sound threads s = (role : ℕ → Role) × (rank : ℕ → ℕ) × Inv threads role rank s

-- A node of one role is not a node of another.
pub listed-ne_private : (t : ℕ) → listed ≢ private t
listed-ne_private t h = cc

pub listed-ne_free : listed ≢ free
listed-ne_free h = cc

pub private-ne_free : (t : ℕ) → private t ≢ free
private-ne_free t h = cc

pub private_inj : (t u : ℕ) → private t ≡ private u → t ≡ u
private_inj t u h = cc

pub role-differs : (role : ℕ → Role) (m n : ℕ) → role m ≢ role n → m ≢ n
role-differs role m n h e = h (ap role e)

-- Steps that change the locks of nodes and the phase of their thread.
module _ {ℓ} {A : Type ℓ} (threads t : ℕ) (role : ℕ → Role) (rank : ℕ → ℕ) (s : System A)
    (present : t < threads) (v : Inv threads role rank s) where
  -- A thread that has a lock is where it says.
  pub mine : (q : Phase A) (n : ℕ) → s.phases t ≡ q → s.owner n ≡ some t → Has n q
  mine q n e o = subst (Has n) e (v.held n t o).1

  pub known : (q : Phase A) → s.phases t ≡ q → Knows role s t q
  known q e = subst (Knows role s t) e (v.knows t present)

  pub listed-used : (n : ℕ) → role n ≡ listed → s.in_use n ≡ true
  listed-used n e = (subst (Keeps s n) e (v.keeps n)).0

  pub listed-full : (n : ℕ) → role n ≡ listed → n ≢ 0 → is_some (s.content n) ≡ true
  listed-full n e = (subst (Keeps s n) e (v.keeps n)).1
