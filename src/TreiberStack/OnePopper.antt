-- ===== src/TreiberStack/OnePopper.antt =====
-- Runs of the stack in which any number of threads push and one pops.
use emb_linux.Prelude.{
  arith, ◌==◌, ==→eq, false→ne, ◌||◌, not, ◌>>=◌, ℕ, ◌≡◌, ◌≢◌, refl, sym, ap, ◌∙◌, subst, List, [],
  ◌∷◌, ◌++◌, map, Bool, true, false, Option, none, some, true-ne_false, Bool-cases, inl, inr,
  if◌then◌else◌,
}
use emb_linux.Chain.{Chain}
use emb_linux.TreiberStack.{
  Phase, idle, fresh, pushing, popping, swinging, won, System, new, set_phase, using, Choice,
  begins_push, begins_pop, goes_on, fails_weakly, is_weak, read_head, link, unlink, begin, advance,
  run,
}
use emb_linux.TreiberStack.Invariant.{
  holds, owns, Knows, in_pop, in_hand, Inv, all_popped, IsStackHistory,
}
use emb_linux.TreiberStack.Moves.{construct-Inv, read_head-Inv, link-Inv}
use emb_linux.TreiberStack.Pops.{load_head-Inv, finish-Inv, read_next-Inv, unlink-Inv, delete-Inv}

-- Thread `p` is the only one that calls pop.
abbrev pub OnlyPops {ℓ} : {A : Type ℓ} → ℕ → List (ℕ × Choice A) → Type 0
OnlyPops p [] = Unit
OnlyPops p ((t, begins_pop) ∷ us) = (t ≡ p) × OnlyPops p us
OnlyPops p ((t, begins_push x n) ∷ us) = OnlyPops p us
OnlyPops p ((t, goes_on) ∷ us) = OnlyPops p us
OnlyPops p ((t, fails_weakly) ∷ us) = OnlyPops p us

both_false : (a b : Bool) → (a || b) ≡ false → (a ≡ false) × (b ≡ false)
both_false a b e = ground arith

not-false : (b : Bool) → not b ≡ false → b ≡ true
not-false true e = refl
not-false false e = absurd (true-ne_false e)

module _ {ℓ} {A : Type ℓ} (p : ℕ) where
  abbrev Kept : System A → Type ℓ
  Kept s = (nodes : List ℕ) × Inv p nodes s

  -- A step succeeds and keeps the invariant.
  abbrev Proceeds : Option (System A) → Type ℓ
  Proceeds o = (s : System A) × (o ≡ some s) × Kept s

  if-Kept :
      (b : Bool) (x y : System A)
      → (b ≡ true → Kept x)
      → (b ≡ false → Kept y)
      → Kept (if b then x else y)
  if-Kept true x y f g = f refl
  if-Kept false x y f g = g refl

  using-Proceeds : (n : ℕ) (s s' : System A) → s.in_use n ≡ true → Kept s' → Proceeds (using n s s')
  unfolding using
  using-Proceeds n s s' h v = (s', ap (λ b. if b then some s' else none) h, v)

  module _ {nodes : List ℕ} {s : System A} (v : Inv p nodes s) (t : ℕ) where
    begin-Kept : (c : Choice A) → (c ≡ begins_pop → t ≡ p) → s.phases t ≡ idle → Kept (begin t c s)
    begin-Kept (begins_push x n) h e =
        if-Kept (n == 0 || s.in_use n) _ _ (λ k. (nodes, v))
          (λ k.
            let (a, b) = both_false (n == 0) (s.in_use n) k in
            (nodes, construct-Inv v t x n e (false→ne n 0 a) b))
    begin-Kept begins_pop h e = (nodes, load_head-Inv v t (h refl) (ap (in_hand s.content) e))
    begin-Kept goes_on h e = (nodes, v)
    begin-Kept fails_weakly h e = (nodes, v)

    -- The node of a thread in push or in pop is in use.
    used : (n : ℕ) → holds (s.phases t) ≡ n → n ≢ 0 → s.in_use n ≡ true
    used n e nonzero = subst (λ i. s.in_use i ≡ true) e (v.held t (λ z. nonzero (sym e ∙ z)))

    push-Kept :
        (c : Choice A) (n : ℕ)
        → s.phases t ≡ pushing n
        → n ≢ 0
        → Kept (if is_weak c || not (s.head == s.next n) then read_head t n s else link t n s)
    push-Kept c n e nonzero =
        if-Kept (is_weak c || not (s.head == s.next n)) _ _
          (λ k. (
            nodes,
            read_head-Inv v t n (ap holds e) (ap owns e) (ap (in_hand s.content) e) nonzero,
          ))
          (λ k. (
            n ∷ nodes,
            link-Inv v t n e (
                ==→eq s.head (s.next n) (
                  not-false (s.head == s.next n)
                    (both_false (is_weak c) (not (s.head == s.next n)) k).1)),
          ))

    swing-Kept :
        (c : Choice A) (old n : ℕ)
        → s.phases t ≡ swinging old n
        → Kept (
            if is_weak c || not (s.head == old)
            then set_phase t (popping s.head) s
            else unlink t old n s)
    swing-Kept c old n e =
        if-Kept (is_weak c || not (s.head == old)) _ _
          (λ k. (nodes, load_head-Inv v t (v.popper t (ap in_pop e)) (ap (in_hand s.content) e)))
          (λ k. unlink-Inv v t old n e (
            ==→eq s.head old
              (not-false (s.head == old) (both_false (is_weak c) (not (s.head == old)) k).1)))

    advance-Proceeds :
        (c : Choice A) (q : Phase)
        → (c ≡ begins_pop → t ≡ p)
        → s.phases t ≡ q
        → Proceeds (advance t c q s)
    unfolding advance
    advance-Proceeds c idle h e = (begin t c s, refl, begin-Kept c h e)
    advance-Proceeds c (fresh n) h e =
        let nonzero : n ≢ 0 = subst (Knows s.next) e (v.knows t) in
        using-Proceeds n s (read_head t n s) (used n (ap holds e) nonzero)
          (nodes, read_head-Inv v t n (ap holds e) (ap owns e) (ap (in_hand s.content) e) nonzero)
    advance-Proceeds c (pushing n) h e =
        let nonzero : n ≢ 0 = subst (Knows s.next) e (v.knows t) in
        using-Proceeds n s _ (used n (ap holds e) nonzero) (push-Kept c n e nonzero)
    advance-Proceeds c (popping old) h e = elim (Bool-cases (old == 0)) [
      | inl k ↦ rw k (set_phase t idle s, refl, (nodes, finish-Inv v t old e))
      | inr k ↦ rw k (
          using-Proceeds old s _ (used old (ap holds e) (false→ne old 0 k))
            (nodes, read_next-Inv v t old e (false→ne old 0 k)))
    ]
    advance-Proceeds c (swinging old n) h e = (_, refl, swing-Kept c old n e)
    advance-Proceeds c (won old) h e =
        using-Proceeds old s _ (used old (ap holds e) (subst (Knows s.next) e (v.knows t)))
          (nodes, delete-Inv v t old e)

  run-Kept :
      (us : List (ℕ × Choice A)) (s : System A) → OnlyPops p us → Kept s → Proceeds (run us s)
  unfolding run
  run-Kept [] s h v = (s, refl, v)
  run-Kept ((t, c) ∷ us) s h (nodes, v) =
      let (allowed, later) = first_turn c us h in
      let (s', e, kept) = advance-Proceeds v t c (s.phases t) allowed refl in
      subst (λ o. Proceeds (o >>= run us)) (sym e) (run-Kept us s' later kept)
    where
      first_turn :
          (c : Choice A) (us : List (ℕ × Choice A))
          → OnlyPops p ((t, c) ∷ us)
          → (c ≡ begins_pop → t ≡ p) × OnlyPops p us
      first_turn (begins_push x n) us h = ((λ e. cc), h)
      first_turn begins_pop us h = ((λ e. h.0), h.1)
      first_turn goes_on us h = ((λ e. cc), h)
      first_turn fails_weakly us h = ((λ e. cc), h)

  new-Inv : (memory : ℕ → A) → Inv p [] (new memory)
  new-Inv memory = record {
    chain = refl;
    distinct = tt;
    unused = λ n h. tt;
    held = λ t h. absurd (h refl);
    apart = λ t u ne h. absurd (h refl);
    owned = λ t h. tt;
    popper = λ t h. absurd (true-ne_false (sym h));
    knows = λ t. tt;
    history = refl;
    results = refl;
  }

  -- In every schedule in which at most one thread calls pop, with every choice of addresses that are
  -- not in use and every spurious failure, no node is used after it is deleted. The successful
  -- compare-exchanges are the pushes and pops of a stack that ends with the values of the linked nodes,
  -- and what pop has returned is, in order, what was popped, but for a node whose value is yet to be
  -- read.
  pub one_popper-IsStack :
      (memory : ℕ → A) (us : List (ℕ × Choice A))
      → OnlyPops p us
      → (s : System A) × (nodes : List ℕ) × (run us (new memory) ≡ some s)
        × Chain 0 s.next s.head nodes
        × IsStackHistory s.history (map s.content nodes)
        × (all_popped s.history ≡ in_hand s.content (s.phases p) ++ s.results)
  one_popper-IsStack memory us h =
      let (s, e, (nodes, v)) = run-Kept us (new memory) h ([], new-Inv memory) in
      (s, nodes, e, v.chain, v.history, v.results)
