-- ===== src/FixedTask/Ownership.antt =====
-- Programs of FixedTask objects against a view of them: which exist, and what each holds.
use emb_linux.Prelude.{
  ◌>>=◌, ℕ, suc, ◌+◌, ◌≤◌, ◌<◌, ◌≡◌, ◌≢◌, refl, sym, ap, ◌∙◌, subst, List, Bool, true, false,
  Option, none, some, ◌==◌, inl, inr, eq-cases, ltb, ltb→lt, if◌then◌else◌, Bool-cases,
  none-ne_some, bit, arith, sum, sum_change, update, update_self, update_ne,
}
use emb_linux.FixedTask.{
  Tasks, Call, constructs, constructs_from, move_constructs, move_assigns, destructs, invokes,
  make_model, destroy_model, set_concept, place, clear, new_object,
}

abbrev pub full {ℓ} : {F : Type ℓ} → Option F → Bool
full none = false
full (some f) = true

-- A view: `none` where there is no object, `some none` where it is empty.
abbrev pub contents {ℓ} : {F : Type ℓ} → Option (Option F) → Option F
contents none = none
contents (some c) = c

-- What the calls mean: moving takes the callable over and leaves an empty object.
abbrev pub meaning {ℓ} : {F : Type ℓ} → Call F → (ℕ → Option (Option F)) → ℕ → Option (Option F)
meaning (constructs i) v = update v i (some none)
meaning (constructs_from i f) v = update v i (some (some f))
meaning (move_constructs i other) v =
    update (update v i (some (contents (v other)))) other (some none)
meaning (move_assigns i other) v =
    if i == other then v else update (update v i (some (contents (v other)))) other (some none)
meaning (destructs i) v = update v i none
meaning (invokes i) v = v

abbrev pub Fits {ℓ} : {F : Type ℓ} → Option (Option F) → Bool → Bool → Option F → Type ℓ
Fits none exists concept storage = (exists ≡ false) × (storage ≡ none)
Fits (some c) exists concept storage = (exists ≡ true) × (concept ≡ full c) × (storage ≡ c)

pub record Holds {ℓ} {F : Type ℓ} (objects : ℕ) (v : ℕ → Option (Option F)) (s : Tasks F)
    : Type ℓ where
  pub fits : (i : ℕ) → Fits (v i) (s.exists i) (s.m_concept i) (s.storage i)
  pub bounded : (i : ℕ) → objects ≤ i → v i ≡ none
  pub balanced : s.made ≡ s.destroyed + sum (λ i. bit (full (s.storage i))) objects

module _ {ℓ} {F : Type ℓ} (objects : ℕ) where
  pub Holds-cong :
      (v w : ℕ → Option (Option F)) (s : Tasks F)
      → ((i : ℕ) → w i ≡ v i)
      → Holds objects v s
      → Holds objects w s
  Holds-cong v w s e h = record {
    fits =
        λ i. subst (λ c. Fits c (s.exists i) (s.m_concept i) (s.storage i)) (sym (e i)) (h.fits i);
    bounded = λ i a. e i ∙ h.bounded i a;
    balanced = h.balanced;
  }

  -- A step that changes one object.
  pub record Touches (i : ℕ) (s s' : Tasks F) : Type ℓ where
    pub exists : (k : ℕ) → i ≢ k → s'.exists k ≡ s.exists k
    pub m_concept : (k : ℕ) → i ≢ k → s'.m_concept k ≡ s.m_concept k
    pub storage : (k : ℕ) → i ≢ k → s'.storage k ≡ s.storage k

  pub touched :
      (i : ℕ) (v : ℕ → Option (Option F)) (c : Option (Option F)) (s s' : Tasks F)
      → i < objects
      → Touches i s s'
      → Fits c (s'.exists i) (s'.m_concept i) (s'.storage i)
      → s'.made + s.destroyed + bit (full (s.storage i))
        ≡ s.made + s'.destroyed + bit (full (s'.storage i))
      → Holds objects v s
      → Holds objects (update v i c) s'
  touched i v c s s' less t f e h = record {
    fits = λ k. elim (eq-cases i k) [
      | inl a ↦
          subst (λ j. Fits (update v i c j) (s'.exists j) (s'.m_concept j) (s'.storage j)) a
            (subst (λ d. Fits d (s'.exists i) (s'.m_concept i) (s'.storage i))
              (sym (update_self v i c)) f)
      | inr a ↦
          subst (λ d. Fits d (s'.exists k) (s'.m_concept k) (s'.storage k))
            (sym (update_ne v i k c a))
            (subst (λ b. Fits (v k) b (s'.m_concept k) (s'.storage k)) (sym (t.exists k a))
              (subst (λ b. Fits (v k) (s.exists k) b (s'.storage k)) (sym (t.m_concept k a))
                (subst (λ b. Fits (v k) (s.exists k) (s.m_concept k) b) (sym (t.storage k a))
                  (h.fits k))))
    ];
    bounded = λ k a. update_ne v i k c (λ b. omega (arith, b)) ∙ h.bounded k a;
    balanced = omega (
      arith,
      e,
      h.balanced,
      sum_change (λ k. bit (full (s.storage k))) (λ k. bit (full (s'.storage k))) i objects less
          (λ k a. ap (λ o. bit (full o)) (sym (t.storage k (λ b. a (sym b))))),
    );
  }

  -- A call that answers with a state of this view and these invocations.
  abbrev pub Goes : (ℕ → Option (Option F)) → List F → Option (Tasks F) → Type ℓ
  Goes v invoked o = (s : Tasks F) × (o ≡ some s) × Holds objects v s × (s.invoked ≡ invoked)

  pub at :
      (i : ℕ) (v : ℕ → Option (Option F)) (c : Option (Option F)) (s : Tasks F)
      → v i ≡ c
      → Holds objects v s
      → Fits c (s.exists i) (s.m_concept i) (s.storage i)
  at i v c s e h = subst (λ d. Fits d (s.exists i) (s.m_concept i) (s.storage i)) e (h.fits i)

  -- An object that is in the view has a place.
  pub placed :
      (i : ℕ) (v : ℕ → Option (Option F)) (c : Option F) (s : Tasks F)
      → v i ≡ some c
      → Holds objects v s
      → i < objects
  placed i v c s e h = elim (Bool-cases (ltb i objects)) [
    | inl a ↦ ltb→lt i objects a
    | inr a ↦ absurd (none-ne_some (sym (h.bounded i (ground arith)) ∙ e))
  ]

  pub place-Goes :
      (i : ℕ) (f : F) (v : ℕ → Option (Option F)) (s : Tasks F)
      → v i ≡ some none
      → Holds objects v s
      → Goes (update v i (some (some f))) s.invoked (place i f s)
  unfolding place
  place-Goes i f v s e h =
      let (here, concept, storage) = at i v (some none) s e h in
      let s' = record s {
        storage = update s.storage i (some f);
        made = suc s.made;
        m_concept = update s.m_concept i true;
      } in
      (
        s',
        ap (λ o. make_model i f o s >>= set_concept i true) storage,
        touched i v (some (some f)) s s' (placed i v none s e h)
            (record {
              exists = λ k a. refl;
              m_concept = λ k a. update_ne s.m_concept i k true a;
              storage = λ k a. update_ne s.storage i k (some f) a;
            })
            (here, update_self s.m_concept i true, update_self s.storage i (some f))
            (omega (
              arith,
              ap (λ o. bit (full o)) storage,
              ap (λ o. bit (full o)) (update_self s.storage i (some f)),
            ))
            h,
        refl,
      )

  pub clear-Goes :
      (i : ℕ) (f : F) (v : ℕ → Option (Option F)) (s : Tasks F)
      → v i ≡ some (some f)
      → Holds objects v s
      → Goes (update v i (some none)) s.invoked (clear i s)
  unfolding clear
  clear-Goes i f v s e h =
      let (here, concept, storage) = at i v (some (some f)) s e h in
      let s' = record s {
        storage = update s.storage i none;
        destroyed = suc s.destroyed;
        m_concept = update s.m_concept i false;
      } in
      (
        s',
        ap (λ o. destroy_model i o s >>= set_concept i false) storage,
        touched i v (some none) s s' (placed i v (some f) s e h)
            (record {
              exists = λ k a. refl;
              m_concept = λ k a. update_ne s.m_concept i k false a;
              storage = λ k a. update_ne s.storage i k none a;
            })
            (here, update_self s.m_concept i false, update_self s.storage i none)
            (omega (
              arith,
              ap (λ o. bit (full o)) storage,
              ap (λ o. bit (full o)) (update_self s.storage i none),
            ))
            h,
        refl,
      )

  pub new_object-Holds :
      (i : ℕ) (v : ℕ → Option (Option F)) (s : Tasks F)
      → i < objects
      → v i ≡ none
      → Holds objects v s
      → Holds objects (update v i (some none)) (new_object i s)
  new_object-Holds i v s less e h =
      let (here, storage) = at i v none s e h in
      touched i v (some none) s (new_object i s) less
        (record {
          exists = λ k a. update_ne s.exists i k true a;
          m_concept = λ k a. update_ne s.m_concept i k false a;
          storage = λ k a. refl;
        })
        (update_self s.exists i true, update_self s.m_concept i false, storage) (omega arith) h
