-- ===== src/FixedTask/Calls.antt =====
-- Each call of a FixedTask object, against the view of the objects.
use emb_linux.Prelude.{
  ◌>>=◌, ℕ, ◌<◌, ◌≡◌, ◌≢◌, refl, sym, ap, ◌∙◌, subst, List, ◌∷◌, Bool, true, false, Option, none,
  some, ◌==◌, inl, inr, eq-cases, eq→==, ==-false, if◌then◌else◌, none-ne_some, update, update_self,
  update_ne, update_eq,
}
use emb_linux.FixedTask.{
  Tasks, Call, move_assigns, invokes, place, clear, move_model, take_over, new_object,
  construct_from, move_construct, drop_model, move_assign,
}
use emb_linux.FixedTask.Ownership.{
  contents, meaning, Holds, Holds-cong, Goes, at, place-Goes, clear-Goes, new_object-Holds,
}

-- The callables that have run, after a call.
abbrev pub heard {ℓ} : {F : Type ℓ} → Option F → List F → List F
heard none ran = ran
heard (some f) ran = f ∷ ran

abbrev pub hears {ℓ} : {F : Type ℓ} → Call F → (ℕ → Option (Option F)) → List F → List F
hears (invokes i) v ran = heard (contents (v i)) ran
hears _ v ran = ran

module _ {ℓ} {F : Type ℓ} (objects : ℕ) where
  pub Goes-bind :
      (v w : ℕ → Option (Option F)) (ran : List F) (o : Option (Tasks F))
      (k : Tasks F → Option (Tasks F))
      → Goes objects v ran o
      → ((s : Tasks F) → Holds objects v s → Goes objects w s.invoked (k s))
      → Goes objects w ran (o >>= k)
  Goes-bind v w ran o k (s, e, h, same) g =
      let (s', e', h', same') = g s h in (s', ap (λ o. o >>= k) e ∙ e', h', same' ∙ same)

  Goes-cong :
      (v w : ℕ → Option (Option F)) (ran : List F) (o : Option (Tasks F))
      → ((i : ℕ) → w i ≡ v i)
      → Goes objects v ran o
      → Goes objects w ran o
  Goes-cong v w ran o a (s, e, h, same) = (s, e, Holds-cong objects v w s a h, same)

  -- The branch that the flag chooses.
  pub Goes-true :
      (b : Bool) (v : ℕ → Option (Option F)) (ran : List F) (x y : Option (Tasks F))
      → b ≡ true
      → Goes objects v ran x
      → Goes objects v ran (if b then x else y)
  Goes-true b v ran x y e g = subst (λ c. Goes objects v ran (if c then x else y)) (sym e) g

  pub Goes-false :
      (b : Bool) (v : ℕ → Option (Option F)) (ran : List F) (x y : Option (Tasks F))
      → b ≡ false
      → Goes objects v ran y
      → Goes objects v ran (if b then x else y)
  Goes-false b v ran x y e g = subst (λ c. Goes objects v ran (if c then x else y)) (sym e) g

  -- An update to what is there.
  update_same :
      (v : ℕ → Option (Option F)) (i : ℕ) (c : Option (Option F))
      → v i ≡ c
      → (k : ℕ) → update v i c k ≡ v k
  update_same v i c e k = elim (eq-cases i k) [
    | inl a ↦ update_eq v i k c a ∙ sym e ∙ ap v a
    | inr a ↦ update_ne v i k c a
  ]

  update_twice :
      (v : ℕ → Option (Option F)) (i : ℕ) (c d : Option (Option F)) (k : ℕ)
      → update v i d k ≡ update (update v i c) i d k
  update_twice v i c d k = elim (eq-cases i k) [
    | inl a ↦ update_eq v i k d a ∙ sym (update_eq (update v i c) i k d a)
    | inr a ↦ update_ne v i k d a ∙ sym (update_ne (update v i c) i k d a ∙ update_ne v i k c a)
  ]

  update_cong :
      (v w : ℕ → Option (Option F)) (i : ℕ) (c : Option (Option F))
      → ((k : ℕ) → v k ≡ w k)
      → (k : ℕ) → update v i c k ≡ update w i c k
  update_cong v w i c e k = elim (eq-cases i k) [
    | inl a ↦ update_eq v i k c a ∙ sym (update_eq w i k c a)
    | inr a ↦ update_ne v i k c a ∙ e k ∙ sym (update_ne w i k c a)
  ]

  take_over-Goes :
      (i other : ℕ) (c : Option F) (v : ℕ → Option (Option F)) (s : Tasks F)
      → i ≢ other
      → v i ≡ some none
      → v other ≡ some c
      → Holds objects v s
      → Goes objects
          (update (update v i (some c)) other (some none))
          s.invoked
          (take_over i other s)
  unfolding take_over
  take_over-Goes i other none v s ne e f h =
      Goes-false (s.m_concept other) _ _ _ _ (at objects other v (some none) s f h).1 (
        Goes-cong v _ s.invoked (some s)
          (λ k.
            update_same (update v i (some none)) other (some none)
              (update_ne v i other (some none) ne ∙ f) k
            ∙ update_same v i (some none) e k)
          (s, refl, h, refl))
  take_over-Goes i other (some f) v s ne e g h =
      let (there, concept, storage) = at objects other v (some (some f)) s g h in
      Goes-true (s.m_concept other) _ _ _ _ concept (
        subst
          (λ o.
            Goes objects (update (update v i (some (some f))) other (some none)) s.invoked
              (move_model i o s >>= clear other))
          (sym storage)
          (Goes-bind (update v i (some (some f))) _ s.invoked (place i f s) (clear other)
            (place-Goes objects i f v s e h)
            (λ s' h'.
              clear-Goes objects other f _ s' (update_ne v i other (some (some f)) ne ∙ g) h')))

  pub construct_from-Goes :
      (i : ℕ) (f : F) (v : ℕ → Option (Option F)) (s : Tasks F)
      → i < objects
      → v i ≡ none
      → Holds objects v s
      → Goes objects (update v i (some (some f))) s.invoked (construct_from i f s)
  unfolding construct_from
  construct_from-Goes i f v s less e h =
      Goes-cong _ _ s.invoked _ (update_twice v i (some none) (some (some f))) (
        place-Goes objects i f (update v i (some none)) (new_object i s)
          (update_self v i (some none)) (new_object-Holds objects i v s less e h))

  pub move_construct-Goes :
      (i other : ℕ) (c : Option F) (v : ℕ → Option (Option F)) (s : Tasks F)
      → i < objects
      → v i ≡ none
      → v other ≡ some c
      → Holds objects v s
      → Goes objects
          (update (update v i (some c)) other (some none))
          s.invoked
          (move_construct i other s)
  unfolding move_construct
  move_construct-Goes i other c v s less e f h =
      let ne : i ≢ other = λ a. none-ne_some (sym e ∙ ap v a ∙ f) in
      Goes-cong _ _ s.invoked _
        (update_cong _ _ other (some none) (update_twice v i (some none) (some c)))
        (take_over-Goes i other c (update v i (some none)) (new_object i s) ne
          (update_self v i (some none)) (update_ne v i other (some none) ne ∙ f)
          (new_object-Holds objects i v s less e h))

  drop_model-Goes :
      (i : ℕ) (c : Option F) (v : ℕ → Option (Option F)) (s : Tasks F)
      → v i ≡ some c
      → Holds objects v s
      → Goes objects (update v i (some none)) s.invoked (drop_model i s)
  drop_model-Goes i none v s e h =
      Goes-false (s.m_concept i) _ _ _ _ (at objects i v (some none) s e h).1
        (Goes-cong v _ s.invoked (some s) (update_same v i (some none) e) (s, refl, h, refl))
  drop_model-Goes i (some f) v s e h =
      Goes-true (s.m_concept i) _ _ _ _ (at objects i v (some (some f)) s e h).1
        (clear-Goes objects i f v s e h)

  pub move_assign-Goes :
      (i other : ℕ) (c d : Option F) (v : ℕ → Option (Option F)) (s : Tasks F)
      → v i ≡ some d
      → v other ≡ some c
      → Holds objects v s
      → Goes objects (meaning (move_assigns i other) v) s.invoked (move_assign i other s)
  unfolding move_assign
  move_assign-Goes i other c d v s e f h = elim (eq-cases i other) [
    | inl a ↦ Goes-true (i == other) _ _ _ _ (eq→== i other a) (
        subst
          (λ b.
            Goes objects
              (if b then v else update (update v i (some (contents (v other)))) other (some none))
              s.invoked (some s))
          (sym (eq→== i other a)) (s, refl, h, refl))
    | inr a ↦
        let moved = update (update v i (some (contents (v other)))) other (some none) in
        Goes-false (i == other) _ _ _ _ (==-false i other a) (
          subst
            (λ b.
              Goes objects (if b then v else moved) s.invoked
                (drop_model i s >>= take_over i other))
            (sym (==-false i other a))
            (subst
              (λ x.
                Goes objects (update (update v i (some x)) other (some none)) s.invoked
                  (drop_model i s >>= take_over i other))
              (sym (ap contents f))
              (Goes-bind (update v i (some none)) _ s.invoked (drop_model i s) (take_over i other)
                (drop_model-Goes i d v s e h)
                (λ s' h'.
                  Goes-cong _ _ s'.invoked _
                    (update_cong _ _ other (some none) (update_twice v i (some none) (some c)))
                    (take_over-Goes i other c (update v i (some none)) s' a
                      (update_self v i (some none)) (update_ne v i other (some none) a ∙ f) h')))))
  ]
