-- ===== src/CountedStack/Safety.antt =====
-- Runs of threads on one lock_free_stack: the steps put together, over its nodes and its history.
use emb_linux.Prelude.{
  ◌>>=◌, ℕ, ◌<◌, ◌≡◌, refl, sym, ap, ◌∙◌, subst, List, [], ◌∷◌, true, Option, none, some, inl, inr,
  Bool-cases, ltb, ltb→lt, if◌then◌else◌, sum_zero,
}
use emb_linux.CountedStack.{
  Counted, Phase, idle, pushing, increasing, holding, won, adding, failing, deleting, System, new,
  Choice, begins_push, begins_pop, goes_on, fails_weakly, same, set_phase, begin_push, retry_push,
  link, increase_head_count, exchange_head, take_data, add_count, drop_count, using, advance, run,
}
use emb_linux.CountedStack.Roles.{
  Role, free, is_some, refers, Counts, Knows, IsEnd, Linked, values, IsStackHistory, Inv,
}
use emb_linux.CountedStack.Moves.{Sound, quiet-Inv}
use emb_linux.CountedStack.Pushing.{begin_push-Sound, retry_push-Sound, link-Sound, pushing-nonzero}
use emb_linux.CountedStack.Popping.{
  increase_head_count-Sound, exchange_head-Sound, referred, bit_self, own_refers,
}
use emb_linux.CountedStack.Taking.{take_data-Sound, add_count-Sound}
use emb_linux.CountedStack.Reclaim.{drop_count-Sound, delete-Sound}

-- A step succeeds and keeps the invariant.
abbrev pub Proceeds {ℓ} : {A : Type ℓ} → ℕ → Option (System A) → Type ℓ
Proceeds {A} threads o = (s : System A) × (o ≡ some s) × Sound threads s

using-Proceeds {ℓ} :
    {A : Type ℓ} (threads n : ℕ) (s : System A) (o : Option (System A))
    → s.in_use n ≡ true
    → Proceeds threads o
    → Proceeds threads (using n s o)
unfolding using
using-Proceeds threads n s o h w = subst (λ b. Proceeds threads (if b then o else none)) (sym h) w

is_some-cases {ℓ} : {A : Type ℓ} (o : Option A) → is_some o ≡ true → (x : A) × (o ≡ some x)
is_some-cases none h = cc
is_some-cases (some x) h = (x, refl)

module _ {ℓ} {A : Type ℓ} (threads t : ℕ) (s : System A) (role : ℕ → Role) (stack : List (ℕ × A))
    (present : t < threads) (v : Inv threads role stack s) where
  -- A phase that refers to no node gives way to another.
  quiet :
      (q p : Phase A)
      → s.phases t ≡ q
      → ((n : ℕ) → refers q n ≡ 0)
      → ((n : ℕ) → refers p n ≡ 0)
      → Knows role s.content t p
      → Sound threads (set_phase t p s)
  quiet q p h f g k = (
    role,
    stack,
    quiet-Inv threads t s s.head p role stack present
        (λ n. own_refers threads t s role present q n h ∙ f n) g k v.linked v,
  )

  pushing-Proceeds :
      (n : ℕ)
      → s.phases t ≡ pushing n
      → Proceeds threads (
          using n s
            (if same s.head (s.next n) then link t n (s.content n) s else some (retry_push t n s)))
  pushing-Proceeds n h =
      let (nonzero, mine) = pushing-nonzero threads t s role stack present v n h in
      let (used, unreferenced, count, full) = subst (Counts threads s n) mine (v.counts n) in
      let (x, holds) = is_some-cases (s.content n) full in
      using-Proceeds threads n s _ used (elim (Bool-cases (same s.head (s.next n))) [
        | inl e ↦
            subst
              (λ b.
                Proceeds threads (if b then link t n (s.content n) s else some (retry_push t n s)))
              (sym e)
              (subst (λ o. Proceeds threads (link t n o s)) (sym holds)
                (link-Sound threads t s role stack present v n x h holds e))
        | inr e ↦
            subst
              (λ b.
                Proceeds threads (if b then link t n (s.content n) s else some (retry_push t n s)))
              (sym e)
              (retry_push t n s, refl, retry_push-Sound threads t s role stack present v n h)
      ])

  pub advance-Proceeds :
      (q : Phase A) (choice : Choice A) → s.phases t ≡ q → Proceeds threads (advance t q choice s)
  unfolding advance
  advance-Proceeds idle (begins_push x a) h =
      (begin_push t x a s, refl, begin_push-Sound threads t s role stack present v x a h)
  advance-Proceeds idle begins_pop h = (
    set_phase t (increasing s.head) s,
    refl,
    quiet idle (increasing s.head) h (λ n. refl) (λ n. refl) tt,
  )
  advance-Proceeds idle goes_on h = (s, refl, (role, stack, v))
  advance-Proceeds idle fails_weakly h = (s, refl, (role, stack, v))
  advance-Proceeds (pushing n) fails_weakly h =
      let (nonzero, mine) = pushing-nonzero threads t s role stack present v n h in
      using-Proceeds threads n s _ (subst (Counts threads s n) mine (v.counts n)).0
        (retry_push t n s, refl, retry_push-Sound threads t s role stack present v n h)
  advance-Proceeds (pushing n) goes_on h = pushing-Proceeds n h
  advance-Proceeds (pushing n) begins_pop h = pushing-Proceeds n h
  advance-Proceeds (pushing n) (begins_push x a) h = pushing-Proceeds n h
  advance-Proceeds (increasing old) choice h = (
    increase_head_count t old s,
    refl,
    increase_head_count-Sound threads t s role present stack old v h,
  )
  advance-Proceeds (holding old) choice h =
      let (many, used, nonzero) =
        referred threads t s role present stack (holding old) old.ptr v h (bit_self old.ptr) in
      using-Proceeds threads old.ptr s _ used
        (exchange_head t old s, refl, exchange_head-Sound threads t s role present stack old v h)
  advance-Proceeds (won old) choice h =
      let (many, used, nonzero) =
        referred threads t s role present stack (won old) old.ptr v h (bit_self old.ptr) in
      let (mine, full) = subst (Knows role s.content t) h (v.knows t present) in
      let (x, holds) = is_some-cases (s.content old.ptr) full in
      using-Proceeds threads old.ptr s _ used (
        subst (λ o. Proceeds threads (take_data t old o s)) (sym holds)
          (take_data-Sound threads t s role stack present v old x h holds))
  advance-Proceeds (adding old) choice h =
      let (many, used, nonzero) =
        referred threads t s role present stack (adding old) old.ptr v h (bit_self old.ptr) in
      using-Proceeds threads old.ptr s _ used
        (add_count t old s, refl, add_count-Sound threads t s role stack present v old h)
  advance-Proceeds (failing n later) choice h =
      let (many, used, nonzero) =
        referred threads t s role present stack (failing n later) n v h (bit_self n) in
      using-Proceeds threads n s _ used
        (drop_count t n later s, refl, drop_count-Sound threads t s role stack present v n later h)
  advance-Proceeds (deleting n none) choice h =
      let mine = subst (Knows role s.content t) h (v.knows t present) in
      using-Proceeds threads n s _ (subst (Counts threads s n) mine (v.counts n)).0
        (_, refl, delete-Sound threads t s role stack present v n none idle h (λ j. refl) tt)
  advance-Proceeds (deleting n (some later)) choice h =
      let mine = subst (Knows role s.content t) h (v.knows t present) in
      using-Proceeds threads n s _ (subst (Counts threads s n) mine (v.counts n)).0 (
        _,
        refl,
        delete-Sound threads t s role stack present v n (some later) (increasing later) h
            (λ j. refl) tt,
      )

pub new-Inv {ℓ} : {A : Type ℓ} (threads : ℕ) → Inv {A = A} threads (λ n. free) [] new
new-Inv threads = record {
  null_free = refl;
  counts = λ n. (refl, sum_zero (λ u. 0) threads (λ i a. refl));
  knows = λ t a. tt;
  linked = record { null = refl };
  history = refl;
}

run-Proceeds {ℓ} :
    {A : Type ℓ} (threads : ℕ) (schedule : List (ℕ × Choice A)) (s : System A)
    → Sound threads s
    → Proceeds threads (run threads schedule s)
unfolding run
run-Proceeds threads [] s v = (s, refl, v)
run-Proceeds threads ((t, choice) ∷ rest) s v = elim (Bool-cases (ltb t threads)) [
  | inl e ↦
      let (s', eq, w) =
        advance-Proceeds threads t s v.0 v.1 (ltb→lt t threads e) v.2 (s.phases t) choice refl in
      subst
        (λ b.
          Proceeds threads
            ((if b then advance t (s.phases t) choice s else some s) >>= run threads rest))
        (sym e)
        (subst (λ o. Proceeds threads (o >>= run threads rest)) (sym eq)
          (run-Proceeds threads rest s' w))
  | inr e ↦
      subst
        (λ b.
          Proceeds threads
            ((if b then advance t (s.phases t) choice s else some s) >>= run threads rest))
        (sym e) (run-Proceeds threads rest s v)
]

-- A counted pointer leads through nodes that are in use to null, with these data.
abbrev pub Holds {ℓ} : {A : Type ℓ} → System A → Counted → List A → Type ℓ
Holds {A} s c [] = IsEnd A c
Holds s c (x ∷ xs) =
    (s.in_use c.ptr ≡ true) × (s.content c.ptr ≡ some x) × Holds s (s.next c.ptr) xs

Linked→Holds {ℓ} :
    {A : Type ℓ} (threads : ℕ) (role : ℕ → Role) (s : System A) (c : Counted) (stack : List (ℕ × A))
    → ((n : ℕ) → Counts threads s n (role n))
    → Linked role s.content s.next c stack
    → Holds s c (values stack)
Linked→Holds threads role s c [] counts l = l
Linked→Holds threads role s c ((n, x) ∷ rest) counts l = (
  (subst (Counts threads s c.ptr) (ap role l.0 ∙ l.1) (counts c.ptr)).0,
  ap s.content l.0 ∙ l.2,
  subst (λ m. Holds s (s.next m) (values rest)) (sym l.0)
      (Linked→Holds threads role s (s.next n) rest counts l.4),
)

-- Any number of threads push and pop on a new stack in any interleaving, the weak compare-exchanges
-- failing at will and addresses being given again after a `delete`. No step uses or deletes a node
-- that is not in use; the nodes from the head on are in use; and the successful compare-exchanges, in
-- their order, are pushes and pops of one stack that ends with the data of these nodes.
pub run-IsStack {ℓ} :
    {A : Type ℓ} (threads : ℕ) (schedule : List (ℕ × Choice A))
    → (s : System A) × (run threads schedule new ≡ some s)
      × ((xs : List A) × Holds s s.head xs × IsStackHistory s.history xs)
run-IsStack threads schedule =
    let (s, eq, (role, stack, v)) =
      run-Proceeds threads schedule new ((λ n. free), [], new-Inv threads) in
    (s, eq, (values stack, Linked→Holds threads role s s.head stack v.counts v.linked, v.history))
