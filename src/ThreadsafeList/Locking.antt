-- ===== src/ThreadsafeList/Locking.antt =====
-- The steps of threadsafe_list that take or release a lock, or call a function.
use emb_linux.Prelude.{
  ℕ, ◌<◌, ◌≡◌, ◌≢◌, refl, sym, ap, ◌∙◌, subst, Option, none, some, some_inj, none-ne_some, update,
  update_eq, update_ne, inl, inr, eq-cases, List,
}
use emb_linux.ThreadsafeList.{
  Phase, idle, pushing, linking, entering, standing, reaching, visiting, dropping, System, acquire,
}
use emb_linux.ThreadsafeList.Roles.{Role, free, listed, private, Keeps, Knows, Has, Inv}
use emb_linux.ThreadsafeList.Frames.{Shows-Inv, Sound, listed-ne_private, listed-ne_free}

module _ {ℓ} {A : Type ℓ} (threads t : ℕ) (role : ℕ → Role) (rank : ℕ → ℕ) (s : System A)
    (present : t < threads) (v : Inv threads role rank s) where
  -- Only the phase changes, and what has been visited and found.
  pub quiet-Sound :
      (p : Phase A) (visited : List (ℕ × A)) (found : List (ℕ × Option A))
      → Knows role s t p
      → ((n : ℕ) → s.owner n ≡ some t → Has n p)
      → Sound threads (record s { phases = update s.phases t p; visited = visited; found = found })
  quiet-Sound p visited found k h =
      let s' = record s { phases = update s.phases t p; visited = visited; found = found } in
      (
        role,
        rank,
        Shows-Inv threads t p role role s s' rank rank v (record {
          frame = record {
            present = present;
            phases = refl;
            owner_kept = λ n u ne e. e;
            owner_back = λ n u ne e. e;
            private_kept = λ n u ne e. e;
            listed_kept = λ n u ne o e. e;
            next_kept = λ n u ne o. refl;
          };
          head = v.head;
          keeps = λ n. same_keeps n (role n) (v.keeps n);
          ordered = v.ordered;
          knows = same_knows p k;
          held = h;
        }),
      )
    where
      same_keeps :
          (n : ℕ) (r : Role)
          → Keeps s n r
          → Keeps (record s { phases = update s.phases t p; visited = visited; found = found }) n r
      same_keeps n free k = k
      same_keeps n listed k = k
      same_keeps n (private u) k = k

      same_knows :
          (q : Phase A)
          → Knows role s t q
          → Knows role
              (record s { phases = update s.phases t p; visited = visited; found = found })
              t
              q
      same_knows idle k = k
      same_knows (pushing n) k = k
      same_knows (linking n) k = k
      same_knows (entering w) k = k
      same_knows (standing c w) k = k
      same_knows (reaching c n w) k = k
      same_knows (visiting n w) k = k
      same_knows (dropping c n w) k = k

  -- The lock of a listed node that no other thread has changes hands.
  pub relock-Sound :
      (m : ℕ) (o : Option ℕ) (p : Phase A) (found : List (ℕ × Option A))
      → role m ≡ listed
      → ((u : ℕ) → u ≢ t → s.owner m ≢ some u)
      → ((u : ℕ) → u ≢ t → o ≢ some u)
      → Knows role
          (record s { owner = update s.owner m o; phases = update s.phases t p; found = found })
          t
          p
      → ((n : ℕ) → update s.owner m o n ≡ some t → Has n p)
      → Sound threads
          (record s { owner = update s.owner m o; phases = update s.phases t p; found = found })
  relock-Sound m o p found in_list before after k h = (
    role,
    rank,
    Shows-Inv threads t p role role s
        (record s { owner = update s.owner m o; phases = update s.phases t p; found = found }) rank
        rank v
        (record {
          frame = record {
            present = present;
            phases = refl;
            owner_kept =
                λ n u ne e. update_ne s.owner m n o (λ a. before u ne (ap s.owner a ∙ e)) ∙ e;
            owner_back = λ n u ne e. elim (eq-cases m n) [
              | inl a ↦ absurd (after u ne (sym (update_eq s.owner m n o a) ∙ e))
              | inr a ↦ sym (update_ne s.owner m n o a) ∙ e
            ];
            private_kept = λ n u ne e. e;
            listed_kept = λ n u ne q e. e;
            next_kept = λ n u ne q. refl;
          };
          head = v.head;
          keeps = λ n. relocked n (role n) refl (v.keeps n);
          ordered = v.ordered;
          knows = k;
          held = h;
        }),
  )
    where
      relocked :
          (n : ℕ) (r : Role)
          → role n ≡ r
          → Keeps s n r
          → Keeps
              (record s { owner = update s.owner m o; phases = update s.phases t p; found = found })
              n
              r
      relocked n free e (a, b) =
          (a, update_ne s.owner m n o (λ f. listed-ne_free (sym in_list ∙ ap role f ∙ e)) ∙ b)
      relocked n listed e k = k
      relocked n (private u) e (a, b, c) = (
        a,
        update_ne s.owner m n o (λ f. listed-ne_private u (sym in_list ∙ ap role f ∙ e)) ∙ b,
        c,
      )

  -- A mutex that the thread asks for is its own, or nothing has happened.
  pub acquire-Sound :
      (m : ℕ) (o : Option ℕ) (p : Phase A)
      → s.owner m ≡ o
      → role m ≡ listed
      → Knows role
          (record s { owner = update s.owner m (some t); phases = update s.phases t p })
          t
          p
      → Has m p
      → ((n : ℕ) → s.owner n ≡ some t → Has n p)
      → Sound threads (acquire t m p o s)
  acquire-Sound m (some u) p e in_list k here others = (role, rank, v)
  acquire-Sound m none p e in_list k here others =
      relock-Sound m (some t) p s.found in_list (λ u ne f. none-ne_some (sym e ∙ f))
        (λ u ne f. ne (sym (some_inj f))) k
        (λ n f. elim (eq-cases m n) [
          | inl a ↦ subst (λ j. Has j p) a here
          | inr a ↦ others n (sym (update_ne s.owner m n (some t) a) ∙ f)
        ])

  -- The thread gives a lock back and keeps no other than those of its new phase.
  pub give_back-Sound :
      (m : ℕ) (p : Phase A) (found : List (ℕ × Option A))
      → role m ≡ listed
      → s.owner m ≡ some t
      → Knows role
          (record s { owner = update s.owner m none; phases = update s.phases t p; found = found })
          t
          p
      → ((n : ℕ) → m ≢ n → s.owner n ≡ some t → Has n p)
      → Sound threads
          (record s { owner = update s.owner m none; phases = update s.phases t p; found = found })
  give_back-Sound m p found in_list own k others =
      relock-Sound m none p found in_list (λ u ne f. ne (sym (some_inj (sym own ∙ f))))
        (λ u ne f. none-ne_some f) k
        (λ n f. elim (eq-cases m n) [
          | inl a ↦ absurd (none-ne_some (sym (update_eq s.owner m n none a) ∙ f))
          | inr a ↦ others n a (sym (update_ne s.owner m n none a) ∙ f)
        ])
