-- ===== src/CountedStack/Moves.antt =====
-- The steps of push and of the counted head in lock_free_stack, and the invariant.
use emb_linux.Prelude.{
  ℕ, ◌<◌, ◌≡◌, ◌≢◌, refl, sym, ap, ◌∙◌, subst, List, Bool, true, false, none, some, arith, update,
  ==→eq, some_inj, none-ne_some, ◌==◌, and-both, if◌then◌else◌, update_ne, update_self,
}
use emb_linux.CountedStack.{none, some, true, update, List, Counted, Phase, System, same}
use emb_linux.CountedStack.Roles.{
  Role, free, stacked, refers, Counts, Knows, NotAmong, Linked, values, IsStackHistory, Inv,
}
use emb_linux.CountedStack.Invariant.{
  owner, Touches, NotAmong-role, Linked-off, other-Knows, Shows-Inv, other-Counts,
}

-- There are roles of the nodes and a stack that fit the state.
abbrev pub Sound {ℓ} : {A : Type ℓ} → ℕ → System A → Type ℓ
Sound {A} threads s = (role : ℕ → Role) × (stack : List (ℕ × A)) × Inv threads role stack s

pub if-Sound {ℓ} :
    {A : Type ℓ} (threads : ℕ) (b : Bool) (x y : System A)
    → (b ≡ true → Sound threads x)
    → (b ≡ false → Sound threads y)
    → Sound threads (if b then x else y)
if-Sound threads true x y f g = f refl
if-Sound threads false x y f g = g refl

-- What `same` compares.
pub same-equal :
    (a b : Counted) → same a b ≡ true → (a.ptr ≡ b.ptr) × (a.external_count ≡ b.external_count)
same-equal a b h =
    let (e, p) = and-both (a.external_count == b.external_count) (a.ptr == b.ptr) h in
    (==→eq a.ptr b.ptr p, ==→eq a.external_count b.external_count e)

-- A step that touches no node.
pub quiet-Touches {ℓ} :
    {A : Type ℓ} (threads t m : ℕ) (s : System A) (h : Counted) (p : Phase A)
    → t < threads
    → ((n : ℕ) → refers (s.phases t) n ≡ 0)
    → ((n : ℕ) → refers p n ≡ 0)
    → Touches threads t m s (record s { head = h; phases = update s.phases t p }) p
quiet-Touches threads t m s h p a f g = record {
  present = a;
  phases = refl;
  in_use = λ n ne. refl;
  content = λ n ne. refl;
  internal_count = λ n ne. refl;
  next = λ n ne. refl;
  old_refers = λ n ne. f n;
  new_refers = λ n ne. g n;
}

pub quiet-Inv {ℓ} :
    {A : Type ℓ} (threads t : ℕ) (s : System A) (h : Counted) (p : Phase A) (role : ℕ → Role)
    (stack : List (ℕ × A))
    → t < threads
    → ((n : ℕ) → refers (s.phases t) n ≡ 0)
    → ((n : ℕ) → refers p n ≡ 0)
    → Knows role s.content t p
    → Linked role s.content s.next h stack
    → Inv threads role stack s
    → Inv threads role stack (record s { head = h; phases = update s.phases t p })
quiet-Inv threads t s h p role stack a f g k l v =
    Shows-Inv threads t 0 s (record s { head = h; phases = update s.phases t p }) p role role stack
      stack v
      record {
        touches = quiet-Touches threads t 0 s h p a f g;
        roles = λ n ne. refl;
        null_free = λ e. v.null_free;
        others = λ u q ne w. w;
        own_counts =
            other-Counts threads t 1 s (record s { head = h; phases = update s.phases t p }) p
              (quiet-Touches threads t 1 s h p a f g) 0 (role 0) (λ e. omega arith) (v.counts 0);
        own_knows = k;
        relinked = l;
        extended = v.history;
      }

pub free-ne_stacked : (k : ℕ) → free ≢ stacked k
free-ne_stacked k h = cc

-- Only one thread owns a node.
pub sole-owner : (r : Role) (t u : ℕ) → owner r ≡ some t → u ≢ t → owner r ≢ some u
sole-owner r t u h ne e = ne (some_inj (sym e ∙ h))

pub no-owner : (r : Role) (u : ℕ) → owner r ≡ none → owner r ≢ some u
no-owner r u h e = none-ne_some (sym h ∙ e)

-- A step of thread `t` that touches one node, which no other thread owns, and gives it a role.
module _ {ℓ} {A : Type ℓ} (threads t m : ℕ) (s s' : System A) (p : Phase A) (role : ℕ → Role)
    (stack : List (ℕ × A)) (r : Role) (touches : Touches threads t m s s' p)
    (v : Inv threads role stack s) where
  pub relink :
      (c : Counted) (rest : List (ℕ × A))
      → NotAmong m rest
      → Linked role s.content s.next c rest
      → Linked (update role m r) s'.content s'.next c rest
  relink c rest a l =
      Linked-off role (update role m r) s.content s'.content s.next s'.next c rest m a
        (λ n ne. update_ne role m n r ne) touches.content touches.next l

  -- For a node outside the stack.
  pub relink_outside :
      ((k : ℕ) → role m ≢ stacked k) → Linked (update role m r) s'.content s'.next s.head stack
  relink_outside h =
      relink s.head stack (NotAmong-role role s.content s.next s.head stack m h v.linked) v.linked

  pub touch-Sound :
      (stack' : List (ℕ × A))
      → m ≢ 0
      → ((u : ℕ) → u ≢ t → owner (role m) ≢ some u)
      → Counts threads s' m r
      → Knows (update role m r) s'.content t p
      → Linked (update role m r) s'.content s'.next s'.head stack'
      → IsStackHistory s'.history (values stack')
      → Sound threads s'
  touch-Sound stack' nonzero o c k l h = (
    update role m r,
    stack',
    Shows-Inv threads t m s s' p role (update role m r) stack stack' v (record {
      touches = touches;
      roles = λ n ne. update_ne role m n r ne;
      null_free = λ e. absurd (nonzero e);
      others = λ u q ne w.
          other-Knows role (update role m r) s.content s'.content m u q
            (λ n ne. update_ne role m n r ne) touches.content (o u ne) w;
      own_counts = subst (Counts threads s' m) (sym (update_self role m r)) c;
      own_knows = k;
      relinked = l;
      extended = h;
    }),
  )

  -- For a step that leaves the roles, the data and the links as they are.
  pub still-Sound :
      s'.content ≡ s.content
      → s'.next ≡ s.next
      → s'.head ≡ s.head
      → s'.history ≡ s.history
      → Counts threads s' m (role m)
      → Knows role s.content t p
      → Sound threads s'
  still-Sound contents nexts heads histories c k = (
    role,
    stack,
    Shows-Inv threads t m s s' p role role stack stack v (record {
      touches = touches;
      roles = λ n ne. refl;
      null_free = λ e. ap role e ∙ v.null_free;
      others = λ u q ne w. subst (λ f. Knows role f u q) (sym contents) w;
      own_counts = c;
      own_knows = subst (λ f. Knows role f t p) (sym contents) k;
      relinked =
          subst (λ f. Linked role f s'.next s'.head stack) (sym contents)
            (subst (λ f. Linked role s.content f s'.head stack) (sym nexts)
              (subst (λ c. Linked role s.content s.next c stack) (sym heads) v.linked));
      extended = subst (λ h. IsStackHistory h (values stack)) (sym histories) v.history;
    }),
  )
