-- ===== src/ThreadsafeList/Linking.antt =====
-- The steps of threadsafe_list that change the list or the nodes in use.
use emb_linux.Prelude.{
  ℕ, ◌<◌, ◌≡◌, ◌≢◌, refl, sym, ap, ◌∙◌, subst, none, some, none-ne_some, true-ne_false, update,
  update_eq, update_ne, update_self, inl, inr, eq-cases, true, false,
}
use emb_linux.ThreadsafeList.{Walk, idle, pushing, standing, dropping, System}
use emb_linux.ThreadsafeList.Roles.{Role, free, listed, private, is_some, Keeps, Ordered, Inv}
use emb_linux.ThreadsafeList.Frames.{
  Shows-Inv, Sound, listed-ne_private, listed-ne_free, private-ne_free, private_inj, mine, known,
}

-- What a node keeps depends on what is stored there.
pub Keeps-off {ℓ} :
    {A : Type ℓ} (s s' : System A) (n : ℕ) (r : Role)
    → s'.in_use n ≡ s.in_use n
    → (r ≢ listed → s'.owner n ≡ s.owner n)
    → s'.content n ≡ s.content n
    → Keeps s n r
    → Keeps s' n r
Keeps-off s s' n free f g h (a, b) = (f ∙ a, g (λ e. listed-ne_free (sym e)) ∙ b)
Keeps-off s s' n listed f g h (a, b) = (f ∙ a, λ z. ap is_some h ∙ b z)
Keeps-off s s' n (private t) f g h (a, b, c) =
    (f ∙ a, g (λ e. listed-ne_private t (sym e)) ∙ b, ap is_some h ∙ c)

-- The order stays when listed nodes and their links do.
Ordered-keep :
    (role role' : ℕ → Role) (rank next next' : ℕ → ℕ)
    → ((c : ℕ) → role' c ≡ listed → (role c ≡ listed) × (next' c ≡ next c))
    → ((c : ℕ) → role c ≡ listed → role' c ≡ listed)
    → Ordered role rank next
    → Ordered role' rank next'
Ordered-keep role role' rank next next' back forth o = record {
  follows = λ c l nz.
      let (m, e) = back c l in
      let (f, r) = o.follows c m (λ z. nz (e ∙ z)) in
      (ap role' e ∙ forth (next c) f, subst (λ k. rank k < rank c) (sym e) r);
  single = λ c d l m e nz.
      let (a, f) = back c l in
      let (b, g) = back d m in o.single c d a b (sym f ∙ e ∙ g) (λ z. nz (f ∙ z));
}

update_cases :
    (role : ℕ → Role) (n : ℕ) (r : Role) (c : ℕ)
    → r ≢ listed
    → update role n r c ≡ listed
    → (n ≢ c) × (role c ≡ listed)
update_cases role n r c ne e = elim (eq-cases n c) [
  | inl a ↦ absurd (ne (sym (update_eq role n c r a) ∙ e))
  | inr a ↦ (a, sym (update_ne role n c r a) ∙ e)
]

-- A node gets a role that is not `listed`.
module _ {ℓ} {A : Type ℓ} (threads t : ℕ) (role : ℕ → Role) (rank : ℕ → ℕ) (s : System A)
    (present : t < threads) (v : Inv threads role rank s) where
  pub unused-free : (a : ℕ) → s.in_use a ≡ false → role a ≡ free
  unused-free a h = of (role a) (v.keeps a)
    where
      of : (r : Role) → Keeps s a r → r ≡ free
      of free k = refl
      of listed k = absurd (true-ne_false (sym k.0 ∙ h))
      of (private u) k = absurd (true-ne_false (sym k.0 ∙ h))

  pub begin_push-Sound :
      (x : A) (a : ℕ)
      → s.phases t ≡ idle
      → s.in_use a ≡ false
      → a ≢ 0
      → Sound threads (record s {
        in_use = update s.in_use a true;
        content = update s.content a (some x);
        next = update s.next a 0;
        owner = update s.owner a none;
        phases = update s.phases t (pushing a);
      })
  begin_push-Sound x a h unused nonzero =
      let s' = record s {
        in_use = update s.in_use a true;
        content = update s.content a (some x);
        next = update s.next a 0;
        owner = update s.owner a none;
        phases = update s.phases t (pushing a);
      } in
      let role' = update role a (private t) in
      let is_free = unused-free a unused in
      let unowned = (subst (Keeps s a) is_free (v.keeps a)).1 in
      let other_owner : (n u : ℕ) → s.owner n ≡ some u → a ≢ n =
        λ n u e f. none-ne_some (sym unowned ∙ ap s.owner f ∙ e) in
      let other_role : (n : ℕ) → role n ≢ free → a ≢ n = λ n e f. e (sym (ap role f) ∙ is_free) in
      let listed_off : (n : ℕ) → role n ≡ listed → a ≢ n =
        λ n e. other_role n (λ f. listed-ne_free (sym e ∙ f)) in
      (
        role',
        rank,
        Shows-Inv threads t (pushing a) role role' s s' rank rank v (record {
          frame = record {
            present = present;
            phases = refl;
            owner_kept = λ n u ne e. update_ne s.owner a n none (other_owner n u e) ∙ e;
            owner_back = λ n u ne e. elim (eq-cases a n) [
              | inl f ↦ absurd (none-ne_some (sym (update_eq s.owner a n none f) ∙ e))
              | inr f ↦ sym (update_ne s.owner a n none f) ∙ e
            ];
            private_kept = λ n u ne e.
                update_ne role a n (private t) (other_role n (λ f. private-ne_free u (sym e ∙ f)))
                ∙ e;
            listed_kept = λ n u ne o e. update_ne role a n (private t) (listed_off n e) ∙ e;
            next_kept = λ n u ne e. update_ne s.next a n 0 (other_owner n u e);
          };
          head = update_ne role a 0 (private t) nonzero ∙ v.head;
          keeps = λ n. elim (eq-cases a n) [
            | inl f ↦
                subst (λ k. Keeps s' k (role' k)) f
                  (subst (Keeps s' a) (sym (update_self role a (private t))) (
                    update_self s.in_use a true,
                    update_self s.owner a none,
                    ap is_some (update_self s.content a (some x)),
                  ))
            | inr f ↦ subst (Keeps s' n) (sym (update_ne role a n (private t) f)) (
                Keeps-off s s' n (role n) (update_ne s.in_use a n true f)
                  (λ e. update_ne s.owner a n none f) (update_ne s.content a n (some x) f)
                  (v.keeps n))
          ];
          ordered =
              Ordered-keep role role' rank s.next s'.next
                (λ c l.
                  let (ne, e) =
                    update_cases role a (private t) c (λ f. listed-ne_private t (sym f)) l in
                  (e, update_ne s.next a c 0 ne))
                (λ c e. update_ne role a c (private t) (listed_off c e) ∙ e) v.ordered;
          knows = update_self role a (private t);
          held = λ n e. elim (eq-cases a n) [
            | inl f ↦ absurd (none-ne_some (sym (update_eq s.owner a n none f) ∙ e))
            | inr f ↦ absurd (
                mine threads t role rank s present v idle n h
                  (sym (update_ne s.owner a n none f) ∙ e))
          ];
        }),
      )

  -- The node that remove_if has taken out is deleted.
  pub delete-Sound :
      (c n : ℕ) (w : Walk A)
      → s.phases t ≡ dropping c n w
      → Sound threads
          (record s { in_use = update s.in_use n false; phases = update s.phases t (standing c w) })
  delete-Sound c n w h =
      let s' = record s {
        in_use = update s.in_use n false;
        phases = update s.phases t (standing c w);
      } in
      let role' = update role n free in
      let (in_list, own, hidden) = known threads t role rank s present v (dropping c n w) h in
      let unowned = (subst (Keeps s n) hidden (v.keeps n)).1 in
      let listed_off : (m : ℕ) → role m ≡ listed → n ≢ m =
        λ m e f. listed-ne_private t (sym e ∙ sym (ap role f) ∙ hidden) in
      (
        role',
        rank,
        Shows-Inv threads t (standing c w) role role' s s' rank rank v (record {
          frame = record {
            present = present;
            phases = refl;
            owner_kept = λ m u ne e. e;
            owner_back = λ m u ne e. e;
            private_kept = λ m u ne e.
                update_ne role n m free
                  (λ f. ne (sym (private_inj t u (sym hidden ∙ ap role f ∙ e))))
                ∙ e;
            listed_kept = λ m u ne o e. update_ne role n m free (listed_off m e) ∙ e;
            next_kept = λ m u ne e. refl;
          };
          head = update_ne role n 0 free (listed_off 0 v.head) ∙ v.head;
          keeps = λ m. elim (eq-cases n m) [
            | inl f ↦
                subst (λ k. Keeps s' k (role' k)) f
                  (subst (Keeps s' n) (sym (update_self role n free))
                    (update_self s.in_use n false, unowned))
            | inr f ↦ subst (Keeps s' m) (sym (update_ne role n m free f)) (
                Keeps-off s s' m (role m) (update_ne s.in_use n m false f) (λ e. refl) refl
                  (v.keeps m))
          ];
          ordered =
              Ordered-keep role role' rank s.next s.next
                (λ d l. ((update_cases role n free d (λ f. listed-ne_free (sym f)) l).1, refl))
                (λ d e. update_ne role n d free (listed_off d e) ∙ e) v.ordered;
          knows = (update_ne role n c free (listed_off c in_list) ∙ in_list, own);
          held = λ m e. mine threads t role rank s present v (dropping c n w) m h e;
        }),
      )
