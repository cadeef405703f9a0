-- ===== src/ThreadsafeList/Cutting.antt =====
-- The steps of threadsafe_list that put a node behind the head and take one out.
use emb_linux.Prelude.{
  Bool, ℕ, suc, ◌<◌, ◌≡◌, ◌≢◌, refl, sym, ap, ◌∙◌, subst, none, some, some_inj, none-ne_some,
  update, update_eq, update_ne, update_self, inl, inr, eq-cases, arith,
}
use emb_linux.ThreadsafeList.{removes, idle, linking, reaching, dropping, System, link}
use emb_linux.ThreadsafeList.Roles.{Role, listed, private, Keeps, Inv}
use emb_linux.ThreadsafeList.Frames.{
  Shows-Inv, Sound, listed-ne_private, private_inj, mine, known, listed-full,
}
use emb_linux.ThreadsafeList.Linking.{Keeps-off}
use emb_linux.ThreadsafeList.Orders.{Ordered-link, Ordered-cut}

module _ {ℓ} {A : Type ℓ} (threads t : ℕ) (role : ℕ → Role) (rank : ℕ → ℕ) (s : System A)
    (present : t < threads) (v : Inv threads role rank s) where
  listed-ne : (k n u : ℕ) → role k ≡ listed → role n ≡ private u → k ≢ n
  listed-ne k n u e f a = listed-ne_private u (sym e ∙ ap role a ∙ f)

  pub link-Sound : (n : ℕ) → s.phases t ≡ linking n → Sound threads (link t n s)
  unfolding link
  link-Sound n h =
      let (hidden, own) = known threads t role rank s present v (linking n) h in
      let (used, unowned, full) = subst (Keeps s n) hidden (v.keeps n) in
      let nonzero : n ≢ 0 = λ e. listed-ne 0 n t v.head hidden (sym e) in
      let s' = link t n s in
      let role' = update role n listed in
      let off_head : (m u : ℕ) → u ≢ t → s.owner m ≡ some u → 0 ≢ m =
        λ m u ne e f. ne (sym (some_inj (sym own ∙ ap s.owner f ∙ e))) in
      let off_node : (m u : ℕ) → s.owner m ≡ some u → n ≢ m =
        λ m u e f. none-ne_some (sym unowned ∙ ap s.owner f ∙ e) in
      (
        role',
        linked_role_rank n,
        Shows-Inv threads t idle role role' s s' rank (linked_role_rank n) v (record {
          frame = record {
            present = present;
            phases = refl;
            owner_kept = λ m u ne e. update_ne s.owner 0 m none (off_head m u ne e) ∙ e;
            owner_back = λ m u ne e. elim (eq-cases 0 m) [
              | inl f ↦ absurd (none-ne_some (sym (update_eq s.owner 0 m none f) ∙ e))
              | inr f ↦ sym (update_ne s.owner 0 m none f) ∙ e
            ];
            private_kept = λ m u ne e.
                update_ne role n m listed
                  (λ f. ne (sym (private_inj t u (sym hidden ∙ ap role f ∙ e))))
                ∙ e;
            listed_kept =
                λ m u ne o e. update_ne role n m listed (λ f. listed-ne m n t e hidden (sym f)) ∙ e;
            next_kept = λ m u ne e.
                update_ne (update s.next n (s.next 0)) 0 m n (off_head m u ne e)
                ∙ update_ne s.next n m (s.next 0) (off_node m u e);
          };
          head = update_ne role n 0 listed nonzero ∙ v.head;
          keeps = λ m. elim (eq-cases n m) [
            | inl f ↦
                subst (λ k. Keeps s' k (role' k)) f
                  (subst (Keeps s' n) (sym (update_self role n listed)) (used, λ z. full))
            | inr f ↦ subst (Keeps s' m) (sym (update_ne role n m listed f)) (
                Keeps-off s s' m (role m) refl
                  (λ e. update_ne s.owner 0 m none (λ z. e (sym (ap role z) ∙ v.head))) refl
                  (v.keeps m))
          ];
          ordered = Ordered-link role rank s.next n t v.head hidden nonzero v.ordered;
          knows = tt;
          held = λ m e. elim (eq-cases 0 m) [
            | inl f ↦ none-ne_some (sym (update_eq s.owner 0 m none f) ∙ e)
            | inr f ↦ f (
                mine threads t role rank s present v (linking n) m h
                  (sym (update_ne s.owner 0 m none f) ∙ e))
          ];
        }),
      )
    where
      linked_role_rank : ℕ → ℕ → ℕ
      linked_role_rank n = update (update rank n (rank 0)) 0 (suc (rank 0))

  pub cut-Sound :
      (c n : ℕ) (p : A → Bool)
      → s.phases t ≡ reaching c n (removes p)
      → Sound threads (record s {
        next = update (update s.next c (s.next n)) n 0;
        owner = update s.owner n none;
        phases = update s.phases t (dropping c n (removes p));
      })
  cut-Sound c n p h =
      let (in_list, own, link, nonzero, after, own_next) =
        known threads t role rank s present v (reaching c n (removes p)) h in
      let s' = record s {
        next = update (update s.next c (s.next n)) n 0;
        owner = update s.owner n none;
        phases = update s.phases t (dropping c n (removes p));
      } in
      let role' = update role n (private t) in
      let lower : rank n < rank c =
        subst (λ k. rank k < rank c) link
          (v.ordered.follows c in_list (λ z. nonzero (sym link ∙ z))).1 in
      let apart : n ≢ c = λ e. omega (arith, lower, ap rank e) in
      let off_next : (m u : ℕ) → u ≢ t → s.owner m ≡ some u → n ≢ m =
        λ m u ne e f. ne (sym (some_inj (sym own_next ∙ ap s.owner f ∙ e))) in
      let off_current : (m u : ℕ) → u ≢ t → s.owner m ≡ some u → c ≢ m =
        λ m u ne e f. ne (sym (some_inj (sym own ∙ ap s.owner f ∙ e))) in
      (
        role',
        rank,
        Shows-Inv threads t (dropping c n (removes p)) role role' s s' rank rank v (record {
          frame = record {
            present = present;
            phases = refl;
            owner_kept = λ m u ne e. update_ne s.owner n m none (off_next m u ne e) ∙ e;
            owner_back = λ m u ne e. elim (eq-cases n m) [
              | inl f ↦ absurd (none-ne_some (sym (update_eq s.owner n m none f) ∙ e))
              | inr f ↦ sym (update_ne s.owner n m none f) ∙ e
            ];
            private_kept = λ m u ne e.
                update_ne role n m (private t)
                  (λ f. listed-ne_private u (sym after ∙ ap role f ∙ e))
                ∙ e;
            listed_kept = λ m u ne o e. update_ne role n m (private t) (off_next m u ne o) ∙ e;
            next_kept = λ m u ne e.
                update_ne (update s.next c (s.next n)) n m 0 (off_next m u ne e)
                ∙ update_ne s.next c m (s.next n) (off_current m u ne e);
          };
          head = update_ne role n 0 (private t) nonzero ∙ v.head;
          keeps = λ m. elim (eq-cases n m) [
            | inl f ↦
                subst (λ k. Keeps s' k (role' k)) f
                  (subst (Keeps s' n) (sym (update_self role n (private t))) (
                    (subst (Keeps s n) after (v.keeps n)).0,
                    update_self s.owner n none,
                    listed-full threads t role rank s present v n after nonzero,
                  ))
            | inr f ↦ subst (Keeps s' m) (sym (update_ne role n m (private t) f)) (
                Keeps-off s s' m (role m) refl (λ e. update_ne s.owner n m none f) refl (v.keeps m))
          ];
          ordered = Ordered-cut role rank s.next c n t in_list link nonzero v.ordered;
          knows = (
            update_ne role n c (private t) apart ∙ in_list,
            update_ne s.owner n c none apart ∙ own,
            update_self role n (private t),
          );
          held = λ m e. elim (eq-cases n m) [
            | inl f ↦ absurd (none-ne_some (sym (update_eq s.owner n m none f) ∙ e))
            | inr f ↦
                elim (mine threads t role rank s present v (reaching c n (removes p)) m h
                  (sym (update_ne s.owner n m none f) ∙ e)) [ inl a ↦ a | inr b ↦ absurd (f b) ]
          ];
        }),
      )
