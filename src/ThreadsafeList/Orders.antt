-- ===== src/ThreadsafeList/Orders.antt =====
-- The order of the nodes when one is put behind the head, and when one is taken out.
use emb_linux.Prelude.{
  ℕ, suc, ◌<◌, ◌≡◌, ◌≢◌, ◌⊎◌, refl, sym, ap, ◌∙◌, subst, update, update_eq, update_ne, update_self,
  inl, inr, eq-cases, arith,
}
use emb_linux.ThreadsafeList.Roles.{Role, listed, private, Ordered}
use emb_linux.ThreadsafeList.Frames.{listed-ne_private}

module _ (role : ℕ → Role) (rank next : ℕ → ℕ) (n t : ℕ) (head : role 0 ≡ listed)
    (hidden : role n ≡ private t) (nonzero : n ≢ 0) (o : Ordered role rank next) where
  abbrev pub linked_role : ℕ → Role
  linked_role = update role n listed

  abbrev pub linked_rank : ℕ → ℕ
  linked_rank = update (update rank n (rank 0)) 0 (suc (rank 0))

  abbrev pub linked_next : ℕ → ℕ
  linked_next = update (update next n (next 0)) 0 n

  -- A listed node with its link: the head, the new node, or another.
  abbrev Linked : ℕ → Type 0
  Linked c =
      ((0 ≡ c) × (linked_next c ≡ n))
      ⊎ (((n ≡ c) × (linked_next c ≡ next 0))
          ⊎ ((0 ≢ c) × (n ≢ c) × (role c ≡ listed) × (linked_next c ≡ next c)))

  classify-Linked : (c : ℕ) → linked_role c ≡ listed → Linked c
  classify-Linked c l = elim (eq-cases 0 c) [
    | inl a ↦ inl (a, update_eq (update next n (next 0)) 0 c n a)
    | inr a ↦ elim (eq-cases n c) [
      | inl b ↦
          inr (inl (b, update_ne (update next n (next 0)) 0 c n a ∙ update_eq next n c (next 0) b))
      | inr b ↦ inr (
          inr (
            a,
            b,
            sym (update_ne role n c listed b) ∙ l,
            update_ne (update next n (next 0)) 0 c n a ∙ update_ne next n c (next 0) b,
          ))
    ]
  ]

  -- No link led to the new node.
  clash : (d : ℕ) → role d ≡ listed → n ≢ next d
  clash d l e =
      listed-ne_private t
        (sym ((o.follows d l (λ z. nonzero (e ∙ z))).0) ∙ ap role (sym e) ∙ hidden)

  kept : (k : ℕ) → role k ≡ listed → 0 ≢ k → (linked_role k ≡ listed) × (linked_rank k ≡ rank k)
  kept k l nz =
      let ne : n ≢ k = λ e. listed-ne_private t (sym l ∙ sym (ap role e) ∙ hidden) in
      (
        update_ne role n k listed ne ∙ l,
        update_ne (update rank n (rank 0)) 0 k (suc (rank 0)) nz ∙ update_ne rank n k (rank 0) ne,
      )

  abbrev Leads : ℕ → ℕ → Type 0
  Leads c d = (linked_role d ≡ listed) × (linked_rank d < linked_rank c)

  rank_head : (c : ℕ) → 0 ≡ c → linked_rank c ≡ suc (rank 0)
  rank_head c e = update_eq (update rank n (rank 0)) 0 c (suc (rank 0)) e

  rank_new : (c : ℕ) → n ≡ c → linked_rank c ≡ rank 0
  rank_new c e =
      update_ne (update rank n (rank 0)) 0 c (suc (rank 0)) (λ z. nonzero (e ∙ sym z))
      ∙ update_eq rank n c (rank 0) e

  linked_follows : (c : ℕ) → linked_role c ≡ listed → linked_next c ≢ 0 → Leads c (linked_next c)
  linked_follows c l nz = elim (classify-Linked c l) [
    | inl (a, e) ↦
        subst (Leads c) (sym e)
          (update_self role n listed, omega (arith, rank_head c a, rank_new n refl))
    | inr (inl (b, e)) ↦
        let (m, r) = o.follows 0 head (λ z. nz (e ∙ z)) in
        let (m', r') = kept (next 0) m (λ z. nz (e ∙ sym z)) in
        subst (Leads c) (sym e) (m', omega (arith, r, r', rank_new c b))
    | inr (inr (a, b, q, e)) ↦
        let (m, r) = o.follows c q (λ z. nz (e ∙ z)) in
        let (m', r') = kept (next c) m (λ z. nz (e ∙ sym z)) in
        subst (Leads c) (sym e) (m', omega (arith, r, r', (kept c q a).1))
  ]

  Linked-single :
      (c d : ℕ) → Linked c → Linked d → linked_next c ≡ linked_next d → linked_next c ≢ 0 → c ≡ d
  Linked-single c d (inl (a, f)) (inl (b, g)) e nz = sym a ∙ b
  Linked-single c d (inl (a, f)) (inr (inl (b, g))) e nz = absurd (clash 0 head (sym f ∙ e ∙ g))
  Linked-single c d (inl (a, f)) (inr (inr (z, b, q, g))) e nz = absurd (clash d q (sym f ∙ e ∙ g))
  Linked-single c d (inr (inl (a, f))) (inl (b, g)) e nz = absurd (clash 0 head (sym g ∙ sym e ∙ f))
  Linked-single c d (inr (inl (a, f))) (inr (inl (b, g))) e nz = sym a ∙ b
  Linked-single c d (inr (inl (a, f))) (inr (inr (z, b, q, g))) e nz =
      absurd (z (o.single 0 d head q (sym f ∙ e ∙ g) (λ y. nz (f ∙ y))))
  Linked-single c d (inr (inr (y, a, q, f))) (inl (b, g)) e nz =
      absurd (clash c q (sym g ∙ sym e ∙ f))
  Linked-single c d (inr (inr (y, a, q, f))) (inr (inl (b, g))) e nz =
      absurd (y (sym (o.single c 0 q head (sym f ∙ e ∙ g) (λ z. nz (f ∙ z)))))
  Linked-single c d (inr (inr (y, a, q, f))) (inr (inr (z, b, m, g))) e nz =
      o.single c d q m (sym f ∙ e ∙ g) (λ x. nz (f ∙ x))

  pub Ordered-link : Ordered linked_role linked_rank linked_next
  Ordered-link = record {
    follows = linked_follows;
    single = λ c d l m. Linked-single c d (classify-Linked c l) (classify-Linked d m);
  }

module _ (role : ℕ → Role) (rank next : ℕ → ℕ) (c n t : ℕ) (in_list : role c ≡ listed)
    (link : next c ≡ n) (nonzero : n ≢ 0) (o : Ordered role rank next) where
  abbrev pub cut_role : ℕ → Role
  cut_role = update role n (private t)

  abbrev pub cut_next : ℕ → ℕ
  cut_next = update (update next c (next n)) n 0

  abbrev Cut : ℕ → Type 0
  Cut d =
      (n ≢ d)
      × (role d ≡ listed)
      × (((c ≡ d) × (cut_next d ≡ next n)) ⊎ ((c ≢ d) × (cut_next d ≡ next d)))

  classify-Cut : (d : ℕ) → cut_role d ≡ listed → Cut d
  classify-Cut d l = elim (eq-cases n d) [
    | inl a ↦ absurd (listed-ne_private t (sym l ∙ update_eq role n d (private t) a))
    | inr a ↦ (
      a,
      sym (update_ne role n d (private t) a) ∙ l,
      elim (eq-cases c d) [
        | inl b ↦
            inl (b, update_ne (update next c (next n)) n d 0 a ∙ update_eq next c d (next n) b)
        | inr b ↦
            inr (b, update_ne (update next c (next n)) n d 0 a ∙ update_ne next c d (next n) b)
      ],
    )
  ]

  before : (role n ≡ listed) × (rank n < rank c)
  before =
      subst (λ k. (role k ≡ listed) × (rank k < rank c)) link
        (o.follows c in_list (λ z. nonzero (sym link ∙ z)))

  abbrev CutLeads : ℕ → ℕ → Type 0
  CutLeads d e = (cut_role e ≡ listed) × (rank e < rank d)

  cut_follows : (d : ℕ) → cut_role d ≡ listed → cut_next d ≢ 0 → CutLeads d (cut_next d)
  cut_follows d l nz =
      let (ne, q, where_from) = classify-Cut d l in
      elim where_from [
        | inl (b, e) ↦
            let (m, r) = o.follows n before.0 (λ z. nz (e ∙ z)) in
            subst (CutLeads d) (sym e) (
              update_ne role n (next n) (private t) (λ z. omega (arith, r, ap rank z)) ∙ m,
              omega (arith, r, before.1, ap rank b),
            )
        | inr (b, e) ↦
            let (m, r) = o.follows d q (λ z. nz (e ∙ z)) in
            subst (CutLeads d) (sym e) (
              update_ne role n (next d) (private t)
                    (λ z. b (o.single c d in_list q (link ∙ z) (λ y. nonzero (sym link ∙ y))))
                  ∙ m,
              r,
            )
      ]

  Cut-single : (d e : ℕ) → Cut d → Cut e → cut_next d ≡ cut_next e → cut_next d ≢ 0 → d ≡ e
  Cut-single d e (a, l, inl (b, f)) (x, m, inl (y, g)) h nz = sym b ∙ y
  Cut-single d e (a, l, inl (b, f)) (x, m, inr (y, g)) h nz =
      absurd (x (o.single n e before.0 m (sym f ∙ h ∙ g) (λ z. nz (f ∙ z))))
  Cut-single d e (a, l, inr (b, f)) (x, m, inl (y, g)) h nz =
      absurd (a (sym (o.single d n l before.0 (sym f ∙ h ∙ g) (λ z. nz (f ∙ z)))))
  Cut-single d e (a, l, inr (b, f)) (x, m, inr (y, g)) h nz =
      o.single d e l m (sym f ∙ h ∙ g) (λ z. nz (f ∙ z))

  pub Ordered-cut : Ordered cut_role rank cut_next
  Ordered-cut = record {
    follows = cut_follows;
    single = λ d e l m. Cut-single d e (classify-Cut d l) (classify-Cut e m);
  }
