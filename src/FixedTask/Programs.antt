-- ===== src/FixedTask/Programs.antt =====
-- Programs of FixedTask objects, and a move there and back.
use emb_linux.Prelude.{
  ◌>>=◌, ℕ, suc, ◌<◌, ◌≡◌, ◌≢◌, refl, sym, ap, ◌∙◌, subst, fun_ext, List, [], ◌∷◌, Bool, true,
  false, ◌&&◌, not, Option, none, some, inl, inr, ==-false, ltb, ltb→lt, if◌then◌else◌, and-both,
  Bool-cases, true-ne_false, bit, arith, sum_zero, update, update_self, update_ne,
}
use emb_linux.FixedTask.{
  Tasks, Call, constructs, constructs_from, move_constructs, move_assigns, destructs, invokes,
  no_tasks, destroy_model, new_object, move_construct, move_assign, end_object, destruct,
  invoke_model, invoke, call, is_legal, object, run,
}
use emb_linux.FixedTask.Ownership.{
  full, contents, meaning, Fits, Holds, touched, Goes, at, placed, new_object-Holds,
}
use emb_linux.FixedTask.Calls.{
  heard, hears, Goes-bind, Goes-true, Goes-false, construct_from-Goes, move_construct-Goes,
  move_assign-Goes,
}

not-true : (b : Bool) → not b ≡ true → b ≡ false
not-true true h = absurd (true-ne_false (sym h))
not-true false h = refl

full-none {ℓ} : {A : Type ℓ} (o : Option A) → full o ≡ false → o ≡ none
full-none none h = refl
full-none (some a) h = absurd (true-ne_false h)

full-some {ℓ} : {A : Type ℓ} (o : Option A) → full o ≡ true → (a : A) × (o ≡ some a)
full-some none h = absurd (true-ne_false (sym h))
full-some (some a) h = (a, refl)

-- What a program means: which objects there are, and which callables have run, the last one first.
abbrev pub plan {ℓ} :
    {F : Type ℓ}
    → ℕ
    → List (Call F)
    → (ℕ → Option (Option F)) × List F
    → (ℕ → Option (Option F)) × List F
plan objects [] w = w
plan objects (c ∷ cs) (v, ran) = plan objects cs (
    if ltb (object c) objects && is_legal (λ i. full (v i)) c
    then (meaning c v, hears c v ran)
    else (v, ran))

module _ {ℓ} {F : Type ℓ} (objects : ℕ) where
  destruct-Goes :
      (i : ℕ) (c : Option F) (v : ℕ → Option (Option F)) (s : Tasks F)
      → v i ≡ some c
      → Holds objects v s
      → Goes objects (update v i none) s.invoked (destruct i s)
  unfolding destruct
  destruct-Goes i none v s e h =
      let (here, concept, storage) = at objects i v (some none) s e h in
      let s' = record s { exists = update s.exists i false } in
      subst
        (λ b.
          Goes objects (update v i none) s.invoked
            ((if b then destroy_model i (s.storage i) s else some s) >>= end_object i))
        (sym concept)
        (
          s',
          refl,
          touched objects i v none s s' (placed objects i v none s e h)
              (record {
                exists = λ k a. update_ne s.exists i k false a;
                m_concept = λ k a. refl;
                storage = λ k a. refl;
              })
              (update_self s.exists i false, storage) (omega arith) h,
          refl,
        )
  destruct-Goes i (some f) v s e h =
      let (here, concept, storage) = at objects i v (some (some f)) s e h in
      let s' = record s {
        exists = update s.exists i false;
        storage = update s.storage i none;
        destroyed = suc s.destroyed;
      } in
      subst
        (λ b.
          Goes objects (update v i none) s.invoked
            ((if b then destroy_model i (s.storage i) s else some s) >>= end_object i))
        (sym concept)
        (
          s',
          ap (λ o. destroy_model i o s >>= end_object i) storage,
          touched objects i v none s s' (placed objects i v (some f) s e h)
              (record {
                exists = λ k a. update_ne s.exists i k false a;
                m_concept = λ k a. refl;
                storage = λ k a. update_ne s.storage i k none a;
              })
              (update_self s.exists i false, update_self s.storage i none)
              (omega (
                arith,
                ap (λ o. bit (full o)) storage,
                ap (λ o. bit (full o)) (update_self s.storage i none),
              ))
              h,
          refl,
        )

  invoke-Goes :
      (i : ℕ) (c : Option F) (v : ℕ → Option (Option F)) (s : Tasks F)
      → v i ≡ some c
      → Holds objects v s
      → Goes objects v (heard c s.invoked) (invoke i s)
  unfolding invoke
  invoke-Goes i none v s e h =
      Goes-false objects (s.m_concept i) _ _ _ _ (at objects i v (some none) s e h).1
        (s, refl, h, refl)
  invoke-Goes i (some f) v s e h =
      let (here, concept, storage) = at objects i v (some (some f)) s e h in
      Goes-true objects (s.m_concept i) _ _ _ _ concept (
        record s { invoked = f ∷ s.invoked },
        ap (λ o. invoke_model o s) storage,
        record { fits = h.fits; bounded = h.bounded; balanced = h.balanced },
        refl,
      )

  -- A legal call does what it means.
  call-Goes :
      (c : Call F) (v : ℕ → Option (Option F)) (s : Tasks F)
      → object c < objects
      → is_legal (λ i. full (v i)) c ≡ true
      → Holds objects v s
      → Goes objects (meaning c v) (hears c v s.invoked) (call c s)
  unfolding call
  call-Goes (constructs i) v s less legal h = (
    new_object i s,
    refl,
    new_object-Holds objects i v s less (full-none (v i) (not-true (full (v i)) legal)) h,
    refl,
  )
  call-Goes (constructs_from i f) v s less legal h =
      construct_from-Goes objects i f v s less (full-none (v i) (not-true (full (v i)) legal)) h
  call-Goes (move_constructs i other) v s less legal h =
      let (absent, present) = and-both (not (full (v i))) (full (v other)) legal in
      let (c, e) = full-some (v other) present in
      subst
        (λ x.
          Goes objects (update (update v i (some x)) other (some none)) s.invoked
            (move_construct i other s))
        (sym (ap contents e))
        (move_construct-Goes objects i other c v s less
          (full-none (v i) (not-true (full (v i)) absent)) e h)
  call-Goes (move_assigns i other) v s less legal h =
      let (here, present) = and-both (full (v i)) (full (v other)) legal in
      let (d, e) = full-some (v i) here in
      let (c, f) = full-some (v other) present in move_assign-Goes objects i other c d v s e f h
  call-Goes (destructs i) v s less legal h =
      let (c, e) = full-some (v i) legal in destruct-Goes i c v s e h
  call-Goes (invokes i) v s less legal h =
      let (c, e) = full-some (v i) legal in
      subst (λ x. Goes objects v (heard x s.invoked) (invoke i s)) (sym (ap contents e))
        (invoke-Goes i c v s e h)

  there : (c : Option (Option F)) (b d : Bool) (o : Option F) → Fits c b d o → b ≡ full c
  there none b d o f = f.0
  there (some c) b d o f = f.0

  legal_same :
      (c : Call F) (v : ℕ → Option (Option F)) (s : Tasks F)
      → Holds objects v s
      → is_legal s.exists c ≡ is_legal (λ i. full (v i)) c
  legal_same c v s h = ap (λ e. is_legal e c) (fun_ext λ i. there (v i) _ _ _ (h.fits i))

  run-plan :
      (cs : List (Call F)) (v : ℕ → Option (Option F)) (s : Tasks F)
      → Holds objects v s
      → Goes objects
          (plan objects cs (v, s.invoked)).0
          (plan objects cs (v, s.invoked)).1
          (run objects cs s)
  unfolding run
  run-plan [] v s h = (s, refl, h, refl)
  run-plan (c ∷ cs) v s h =
      subst
        (λ b.
          Goes objects (plan objects (c ∷ cs) (v, s.invoked)).0
            (plan objects (c ∷ cs) (v, s.invoked)).1
            ((if ltb (object c) objects && b then call c s else some s) >>= run objects cs))
        (sym (legal_same c v s h))
        (elim (Bool-cases (ltb (object c) objects && is_legal (λ i. full (v i)) c)) [
          | inl a ↦
              let (less, legal) = and-both (ltb (object c) objects) _ a in
              let (s', e, h', same) = call-Goes c v s (ltb→lt _ objects less) legal h in
              subst
                (λ b.
                  Goes objects
                    (plan objects cs
                      (if b then (meaning c v, hears c v s.invoked) else (v, s.invoked))).0
                    (plan objects cs
                      (if b then (meaning c v, hears c v s.invoked) else (v, s.invoked))).1
                    ((if b then call c s else some s) >>= run objects cs))
                (sym a)
                (subst
                  (λ o.
                    Goes objects (plan objects cs (meaning c v, hears c v s.invoked)).0
                      (plan objects cs (meaning c v, hears c v s.invoked)).1 (o >>= run objects cs))
                  (sym e)
                  (subst
                    (λ ran.
                      Goes objects (plan objects cs (meaning c v, ran)).0
                        (plan objects cs (meaning c v, ran)).1 (run objects cs s'))
                    same (run-plan cs (meaning c v) s' h')))
          | inr a ↦
              subst
                (λ b.
                  Goes objects
                    (plan objects cs
                      (if b then (meaning c v, hears c v s.invoked) else (v, s.invoked))).0
                    (plan objects cs
                      (if b then (meaning c v, hears c v s.invoked) else (v, s.invoked))).1
                    ((if b then call c s else some s) >>= run objects cs))
                (sym a) (run-plan cs v s h)
        ])

-- Any program of constructions, moves, assignments, calls and destructions of FixedTask objects, without
-- one of them ever using or destroying a Model that is not there or constructing one over another,
-- leaves the objects that it means to leave and has run the callables that it means to run; and each
-- Model that was made is destroyed, once, or is in the storage of one object.
pub run-Holds {ℓ} :
    {F : Type ℓ} (objects : ℕ) (cs : List (Call F))
    → (s : Tasks F) × (run objects cs no_tasks ≡ some s)
      × Holds objects (plan objects cs ((λ i. none), [])).0 s
      × (s.invoked ≡ (plan objects cs ((λ i. none), [])).1)
run-Holds objects cs =
    run-plan objects cs (λ i. none) no_tasks
      (record {
        fits = λ i. (refl, refl);
        bounded = λ i a. refl;
        balanced = omega (arith, sum_zero (λ i. 0) objects (λ i a. refl));
      })

-- What an assignment means for the two objects.
assigned {ℓ} :
    {F : Type ℓ} (i other : ℕ) (c : Option F) (v : ℕ → Option (Option F))
    → i ≢ other
    → v other ≡ some c
    → meaning (move_assigns i other) v i ≡ some c
assigned i other c v ne e =
    ap (λ b. (if b then v else update (update v i (some (contents (v other)))) other (some none)) i)
      (==-false i other ne)
    ∙ update_ne (update v i (some (contents (v other)))) other i (some none) (λ a. ne (sym a))
    ∙ update_self v i (some (contents (v other)))
    ∙ ap (λ o. some (contents o)) e

left_empty {ℓ} :
    {F : Type ℓ} (i other : ℕ) (v : ℕ → Option (Option F))
    → i ≢ other
    → meaning (move_assigns i other) v other ≡ some none
left_empty i other v ne =
    ap
      (λ b.
        (if b then v else update (update v i (some (contents (v other)))) other (some none)) other)
      (==-false i other ne)
    ∙ update_self (update v i (some (contents (v other)))) other (some none)

-- A callable that is moved to another object by assignment and back is in the first object again, and the
-- other one is empty, whatever it held before.
pub move-round_trip {ℓ} :
    {F : Type ℓ} (objects i other : ℕ) (c d : Option F) (v : ℕ → Option (Option F)) (s : Tasks F)
    → i ≢ other
    → v i ≡ some d
    → v other ≡ some c
    → Holds objects v s
    → (s' : Tasks F) × ((move_assign i other s >>= move_assign other i) ≡ some s')
      × (s'.storage other ≡ s.storage other)
      × (s'.storage i ≡ none)
unfolding move_assign
move-round_trip objects i other c d v s ne e f h =
    let back : other ≢ i = λ a. ne (sym a) in
    let w = meaning (move_assigns i other) v in
    let here : w i ≡ some c = assigned i other c v ne f in
    let there : w other ≡ some none = left_empty i other v ne in
    let (s', eq, h', same) =
      Goes-bind objects w (meaning (move_assigns other i) w) s.invoked (move_assign i other s)
        (move_assign other i) (move_assign-Goes objects i other c d v s e f h)
        (λ s1 h1. move_assign-Goes objects other i c none w s1 there here h1) in
    (
      s',
      eq,
      (at objects other _ (some c) s' (assigned other i c w back here) h').2
          ∙ sym ((at objects other v (some c) s f h).2),
      (at objects i _ (some none) s' (left_empty other i w back) h').2,
    )
