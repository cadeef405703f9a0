-- ===== src/ThreadsafeList/Safety.antt =====
-- The steps of threadsafe_list put together, and its runs.
use emb_linux.Prelude.{
  ◌>>=◌, ℕ, zero, ◌<◌, ◌≡◌, ◌≢◌, refl, sym, ap, ◌∙◌, subst, List, [], ◌∷◌, Option, none, some,
  none-ne_some, true-ne_false, update, update_eq, update_ne, update_self, inl, inr, eq-cases, Bool,
  true, false, if◌then◌else◌, ◌==◌, ◌||◌, or-neither, ==-false, false→ne, Bool-cases, ltb, ltb→lt,
  arith, suc,
}
use emb_linux.ThreadsafeList.{
  Walk, calls, finds, removes, Phase, idle, pushing, linking, entering, standing, reaching,
  visiting, dropping, System, new, Choice, begins_push, begins_walk, goes_on, set_phase, release,
  begin_push, link, miss, leave, step_over, visit, using, advance_from, advance, run,
}
use emb_linux.ThreadsafeList.Roles.{Role, free, listed, is_some, Keeps, Knows, Has, Inv}
use emb_linux.ThreadsafeList.Frames.{Sound, mine, known, listed-used, listed-full}
use emb_linux.ThreadsafeList.Locking.{quiet-Sound, acquire-Sound, give_back-Sound}
use emb_linux.ThreadsafeList.Linking.{begin_push-Sound, delete-Sound}
use emb_linux.ThreadsafeList.Cutting.{link-Sound, cut-Sound}

-- A step succeeds and keeps the invariant.
abbrev pub Proceeds {ℓ} : {A : Type ℓ} → ℕ → Option (System A) → Type ℓ
Proceeds {A} threads o = (s : System A) × (o ≡ some s) × Sound threads s

using-Proceeds {ℓ} :
    {A : Type ℓ} (threads n : ℕ) (s : System A) (o : Option (System A))
    → s.in_use n ≡ true
    → Proceeds threads o
    → Proceeds threads (using n s o)
using-Proceeds threads n s o h w = subst (λ b. Proceeds threads (if b then o else none)) (sym h) w

-- A state of which it is known that it keeps the invariant.
done {ℓ} : {A : Type ℓ} (threads : ℕ) (s : System A) → Sound threads s → Proceeds threads (some s)
done threads s w = (s, refl, w)

if-Sound {ℓ} :
    {A : Type ℓ} (threads : ℕ) (b : Bool) (x y : System A)
    → (b ≡ true → Sound threads x)
    → (b ≡ false → Sound threads y)
    → Sound threads (if b then x else y)
if-Sound threads true x y f g = f refl
if-Sound threads false x y f g = g refl

if-Proceeds {ℓ} :
    {A : Type ℓ} (threads : ℕ) (b : Bool) (x y : Option (System A))
    → (b ≡ true → Proceeds threads x)
    → (b ≡ false → Proceeds threads y)
    → Proceeds threads (if b then x else y)
if-Proceeds threads true x y f g = f refl
if-Proceeds threads false x y f g = g refl

is_some-cases {ℓ} : {A : Type ℓ} (o : Option A) → is_some o ≡ true → (x : A) × (o ≡ some x)
is_some-cases none h = absurd (true-ne_false (sym h))
is_some-cases (some x) h = (x, refl)

module _ {ℓ} {A : Type ℓ} (threads t : ℕ) (role : ℕ → Role) (rank : ℕ → ℕ) (s : System A)
    (present : t < threads) (v : Inv threads role rank s) where
  used : (n : ℕ) → role n ≡ listed → s.in_use n ≡ true
  used = listed-used threads t role rank s present v

  holds_nothing :
      (q : Phase A)
      → s.phases t ≡ q
      → ((n : ℕ) → Has n q → ⊥)
      → (p : Phase A) → (n : ℕ) → s.owner n ≡ some t
      → Has n p
  holds_nothing q h f p n e = absurd (f n (mine threads t role rank s present v q n h e))

  begin_push-Proceeds : (x : A) (a : ℕ) → s.phases t ≡ idle → Sound threads (begin_push t x a s)
  unfolding begin_push
  begin_push-Proceeds x a h =
      if-Sound threads (s.in_use a || a == 0) _ _ (λ e. (role, rank, v))
        (λ e.
          let (unused, nonzero) = or-neither (s.in_use a) (a == 0) e in
          begin_push-Sound threads t role rank s present v x a h unused (false→ne a 0 nonzero))

  leave-Sound : (c : ℕ) (w : Walk A) → s.phases t ≡ standing c w → Sound threads (leave t c w s)
  unfolding leave
  leave-Sound c w h =
      let (in_list, own) = known threads t role rank s present v (standing c w) h in
      give_back-Sound threads t role rank s present v c idle (miss t w s.found) in_list own tt
        (λ n ne e. absurd (ne (mine threads t role rank s present v (standing c w) n h e)))

  standing-Proceeds :
      (c : ℕ) (w : Walk A) → s.phases t ≡ standing c w → Proceeds threads (advance_from t c w s)
  standing-Proceeds c w h =
      let (in_list, own) = known threads t role rank s present v (standing c w) h in
      if-Proceeds threads (s.next c == 0) _ _ (λ e. done threads _ (leave-Sound c w h))
        (λ e.
          let nonzero = false→ne (s.next c) 0 e in
          let (after, lower) = v.ordered.follows c in_list nonzero in
          using-Proceeds threads (s.next c) s _ (used (s.next c) after) (
            done threads _ (
              acquire-Sound threads t role rank s present v (s.next c) (s.owner (s.next c))
                (reaching c (s.next c) w) refl after
                (
                  in_list,
                  owned c (s.next c) own,
                  refl,
                  nonzero,
                  after,
                  update_self s.owner (s.next c) (some t),
                )
                (inr refl)
                (λ n e. inl (mine threads t role rank s present v (standing c w) n h e)))))
    where
      owned : (c n : ℕ) → s.owner c ≡ some t → update s.owner n (some t) c ≡ some t
      owned c n own = elim (eq-cases n c) [
        | inl e ↦ update_eq s.owner n c (some t) e
        | inr e ↦ update_ne s.owner n c (some t) e ∙ own
      ]

  -- The lock of the node behind is given back.
  released :
      (c n : ℕ) (w : Walk A) (p : Phase A)
      → s.phases t ≡ reaching c n w
      → ((s' : System A) → s'.owner n ≡ some t → Knows role s' t p)
      → Has n p
      → Sound threads (set_phase t p (release c s))
  released c n w p h k here =
      let (in_list, own, link, nonzero, after, own_next) =
        known threads t role rank s present v (reaching c n w) h in
      let lower = v.ordered.follows c in_list (λ z. nonzero (sym link ∙ z)) in
      let apart : c ≢ n = λ e. omega (arith, lower.1, ap rank (e ∙ sym link)) in
      give_back-Sound threads t role rank s present v c p s.found in_list own
        (k (set_phase t p (release c s)) (update_ne s.owner c n none apart ∙ own_next))
        (λ m ne e. elim (mine threads t role rank s present v (reaching c n w) m h e) [
          | inl a ↦ absurd (ne a)
          | inr b ↦ subst (λ j. Has j p) b here
        ])

  reaching-Proceeds :
      (c n : ℕ) (w : Walk A) (x : A)
      → s.phases t ≡ reaching c n w
      → Proceeds threads (step_over t c n w (some x) s)
  unfolding step_over
  reaching-Proceeds c n calls x h =
      let (in_list, own, link, nonzero, after, own_next) =
        known threads t role rank s present v (reaching c n calls) h in
      done threads _ (released c n calls (visiting n calls) h (λ s' e. (nonzero, after, e)) refl)
  reaching-Proceeds c n (finds p) x h =
      let (in_list, own, link, nonzero, after, own_next) =
        known threads t role rank s present v (reaching c n (finds p)) h in
      done threads _
        (released c n (finds p) (visiting n (finds p)) h (λ s' e. (nonzero, after, e)) refl)
  reaching-Proceeds c n (removes p) x h =
      let (in_list, own, link, nonzero, after, own_next) =
        known threads t role rank s present v (reaching c n (removes p)) h in
      done threads _ (
        if-Sound threads (p x) _ _ (λ e. cut-Sound threads t role rank s present v c n p h)
          (λ e. released c n (removes p) (standing n (removes p)) h (λ s' e. (after, e)) refl))

  visiting-Proceeds :
      (n : ℕ) (w : Walk A) (x : A)
      → s.phases t ≡ visiting n w
      → Proceeds threads (visit t n w (some x) s)
  unfolding visit
  visiting-Proceeds n calls x h =
      let (nonzero, in_list, own) = known threads t role rank s present v (visiting n calls) h in
      done threads _ (
        quiet-Sound threads t role rank s present v (standing n calls) ((t, x) ∷ s.visited) s.found
          (in_list, own) (λ m e. mine threads t role rank s present v (visiting n calls) m h e))
  visiting-Proceeds n (removes p) x h =
      let (nonzero, in_list, own) =
        known threads t role rank s present v (visiting n (removes p)) h in
      done threads _ (
        quiet-Sound threads t role rank s present v (standing n (removes p)) ((t, x) ∷ s.visited)
          s.found (in_list, own)
          (λ m e. mine threads t role rank s present v (visiting n (removes p)) m h e))
  visiting-Proceeds n (finds p) x h =
      let (nonzero, in_list, own) =
        known threads t role rank s present v (visiting n (finds p)) h in
      done threads _ (
        if-Sound threads (p x) _ _
          (λ e.
            give_back-Sound threads t role rank s present v n idle ((t, some x) ∷ s.found) in_list
              own tt
              (λ m ne f.
                absurd (ne (mine threads t role rank s present v (visiting n (finds p)) m h f))))
          (λ e.
            quiet-Sound threads t role rank s present v (standing n (finds p)) s.visited s.found
              (in_list, own)
              (λ m e. mine threads t role rank s present v (visiting n (finds p)) m h e)))

  pub advance-Proceeds :
      (q : Phase A) (choice : Choice A) → s.phases t ≡ q → Proceeds threads (advance t q choice s)
  unfolding advance
  advance-Proceeds idle (begins_push x a) h = done threads _ (begin_push-Proceeds x a h)
  advance-Proceeds idle (begins_walk w) h = done threads _ (
      quiet-Sound threads t role rank s present v (entering w) s.visited s.found tt
        (holds_nothing idle h (λ n k. k) (entering w)))
  advance-Proceeds idle goes_on h = done threads s (role, rank, v)
  advance-Proceeds (pushing n) choice h = using-Proceeds threads 0 s _ (used 0 v.head) (
      done threads _ (
        acquire-Sound threads t role rank s present v 0 (s.owner 0) (linking n) refl v.head
          (known threads t role rank s present v (pushing n) h, update_self s.owner 0 (some t)) refl
          (holds_nothing (pushing n) h (λ m k. k) (linking n))))
  advance-Proceeds (linking n) choice h =
      let (hidden, own) = known threads t role rank s present v (linking n) h in
      using-Proceeds threads 0 s _ (used 0 v.head) (
        using-Proceeds threads n s _ (subst (Keeps s n) hidden (v.keeps n)).0
          (done threads _ (link-Sound threads t role rank s present v n h)))
  advance-Proceeds (entering w) choice h = using-Proceeds threads 0 s _ (used 0 v.head) (
      done threads _ (
        acquire-Sound threads t role rank s present v 0 (s.owner 0) (standing 0 w) refl v.head
          (v.head, update_self s.owner 0 (some t)) refl
          (holds_nothing (entering w) h (λ m k. k) (standing 0 w))))
  advance-Proceeds (standing c w) choice h =
      let (in_list, own) = known threads t role rank s present v (standing c w) h in
      using-Proceeds threads c s _ (used c in_list) (standing-Proceeds c w h)
  advance-Proceeds (reaching c n w) choice h =
      let (in_list, own, link, nonzero, after, own_next) =
        known threads t role rank s present v (reaching c n w) h in
      let (x, e) =
        is_some-cases (s.content n) (listed-full threads t role rank s present v n after nonzero) in
      using-Proceeds threads c s _ (used c in_list) (
        using-Proceeds threads n s _ (used n after) (
          subst (λ o. Proceeds threads (step_over t c n w o s)) (sym e)
            (reaching-Proceeds c n w x h)))
  advance-Proceeds (visiting n w) choice h =
      let (nonzero, in_list, own) = known threads t role rank s present v (visiting n w) h in
      let (x, e) =
        is_some-cases (s.content n)
          (listed-full threads t role rank s present v n in_list nonzero) in
      using-Proceeds threads n s _ (used n in_list)
        (subst (λ o. Proceeds threads (visit t n w o s)) (sym e) (visiting-Proceeds n w x h))
  advance-Proceeds (dropping c n w) choice h =
      let (in_list, own, hidden) = known threads t role rank s present v (dropping c n w) h in
      using-Proceeds threads n s _ (subst (Keeps s n) hidden (v.keeps n)).0
        (done threads _ (delete-Sound threads t role rank s present v c n w h))

abbrev first_role : ℕ → Role
first_role zero = listed
first_role (suc n) = free

first_Keeps {ℓ} : (A : Type ℓ) (n : ℕ) → Keeps {A = A} new n (first_role n)
first_Keeps A zero = (refl, λ nz. absurd (nz refl))
first_Keeps A (suc n) = (==-false (suc n) 0 (λ e. omega (arith, e)), refl)

new-Inv {ℓ} : {A : Type ℓ} (threads : ℕ) → Inv {A = A} threads first_role (λ n. 0) new
new-Inv {A = A} threads = record {
  head = refl;
  keeps = first_Keeps A;
  ordered = record {
    follows = λ c l nz. absurd (nz refl);
    single = λ c d l m e nz. absurd (nz refl);
  };
  knows = λ t a. tt;
  held = λ n u e. absurd (none-ne_some e);
}

pub run-Proceeds {ℓ} :
    {A : Type ℓ} (threads : ℕ) (schedule : List (ℕ × Choice A)) (s : System A)
    → Sound threads s
    → Proceeds threads (run threads schedule s)
unfolding run
run-Proceeds threads [] s v = (s, refl, v)
run-Proceeds threads ((t, choice) ∷ rest) s (role, rank, v) = elim (Bool-cases (ltb t threads)) [
  | inl e ↦
      let (s', eq, w) =
        advance-Proceeds threads t role rank s (ltb→lt t threads e) v (s.phases t) choice refl in
      subst
        (λ b.
          Proceeds threads
            ((if b then advance t (s.phases t) choice s else some s) >>= run threads rest))
        (sym e)
        (subst (λ o. Proceeds threads (o >>= run threads rest)) (sym eq)
          (run-Proceeds threads rest s' w))
  | inr e ↦
      subst
        (λ b.
          Proceeds threads
            ((if b then advance t (s.phases t) choice s else some s) >>= run threads rest))
        (sym e) (run-Proceeds threads rest s (role, rank, v))
]

pub new-Sound {ℓ} : {A : Type ℓ} (threads : ℕ) → Sound {A = A} threads new
new-Sound threads = (first_role, (λ n. 0), new-Inv threads)
