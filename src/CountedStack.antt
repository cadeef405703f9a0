-- ===== src/CountedStack.antt =====
-- The class lock_free_stack of C++_ConcurrencyInAction/designLockFree/dataStructures.hpp: a stack
-- whose nodes are reclaimed by split reference counts. One access of a thread is a step, and
-- compare-exchanges may also fail for no reason where they are weak. An address is a number that the
-- allocator chooses among those that are not in use; 0 is null. The external count, an `int` that
-- is never negative, is a natural number; its overflow is not modelled.
pub mod Roles
pub mod Invariant
pub mod Moves
pub mod Pushing
pub mod Popping
pub mod Counting
pub mod Taking
pub mod Reclaim
pub mod Safety
mod Tests
use emb_linux.Prelude.{
  ◌>>=◌, ℕ, zero, suc, ◌+◌, ◌-◌, List, [], ◌∷◌, Bool, true, false, ◌&&◌, ◌||◌, not, Option, none,
  some, ◌==◌, ltb, if◌then◌else◌, update, ℤ, pos, pos_part, neg_part, sub_ℕ,
}

pub record Counted : Type 0 where
  pub external_count : ℕ
  pub ptr : ℕ

-- `operator==` of the two words in a compare-exchange.
abbrev pub same : Counted → Counted → Bool
same a b = (a.external_count == b.external_count) && (a.ptr == b.ptr)

-- Where a thread stands: between calls; in `push` with its new node; in the loop of
-- `increase_head_count` with `old_counter`; before the compare-exchange of `pop` with `old_head`;
-- past it, before and after the data are taken; before the decrement with the head that it has
-- read since; and before a `delete`, from which it returns or goes on with such a head.
pub data Phase {ℓ} (A : Type ℓ) : Type ℓ where
  idle : Phase A
  pushing : (node : ℕ) → Phase A
  increasing : (old_counter : Counted) → Phase A
  holding : (old_head : Counted) → Phase A
  won : (old_head : Counted) → Phase A
  adding : (old_head : Counted) → Phase A
  failing : (node : ℕ) (old_head : Counted) → Phase A
  deleting : (node : ℕ) (next : Option Counted) → Phase A

pub data Event {ℓ} (A : Type ℓ) : Type ℓ where
  pushed : A → Event A
  popped : Option A → Event A

-- The nodes as arrays by address, with whether an address is in use, and the head. `history`
-- lists the successful compare-exchanges of push and pop, the last one first, with the data of the node.
pub record System {ℓ} (A : Type ℓ) : Type ℓ where
  pub in_use : ℕ → Bool
  pub content : ℕ → Option A
  pub internal_count : ℕ → ℤ
  pub next : ℕ → Counted
  pub head : Counted
  pub phases : ℕ → Phase A
  pub history : List (Event A)

abbrev pub new {ℓ} : {A : Type ℓ} → System A
new = record {
  in_use = λ i. false;
  content = λ i. none;
  internal_count = λ i. pos 0;
  next = λ i. record { external_count = 0; ptr = 0 };
  head = record { external_count = 0; ptr = 0 };
  phases = λ t. idle;
  history = [];
}

-- What the environment of a thread decides: the call that it begins, with the address that `new`
-- gives, or that a weak compare-exchange fails.
pub data Choice {ℓ} (A : Type ℓ) : Type ℓ where
  begins_push : A → (address : ℕ) → Choice A
  begins_pop : Choice A
  goes_on : Choice A
  fails_weakly : Choice A

module _ {ℓ} {A : Type ℓ} where
  abbrev pub set_phase : ℕ → Phase A → System A → System A
  set_phase t p s = record s { phases = update s.phases t p }

  -- `new node(data)`, and the load of the head.
  pub begin_push : ℕ → A → ℕ → System A → System A
  begin_push t x a s = if s.in_use a || a == 0 then s else record s {
    in_use = update s.in_use a true;
    content = update s.content a (some x);
    internal_count = update s.internal_count a (pos 0);
    next = update s.next a s.head;
    phases = update s.phases t (pushing a);
  }

  -- The failure of the compare-exchange of `push`: the expected value becomes the head.
  pub retry_push : ℕ → ℕ → System A → System A
  retry_push t n s = record s {
    next = update s.next n s.head;
    phases = update s.phases t (pushing n);
  }

  -- Its success.
  pub link : ℕ → ℕ → Option A → System A → Option (System A)
  link t n none s = none
  link t n (some x) s = some (record s {
    head = record { external_count = 1; ptr = n };
    phases = update s.phases t idle;
    history = pushed x ∷ s.history;
  })

  -- The compare-exchange of `increase_head_count`, and the test of the pointer after it.
  pub increase_head_count : ℕ → Counted → System A → System A
  increase_head_count t old s =
      if same s.head old
      then record s {
        head = record old { external_count = old.external_count + 1 };
        phases = update s.phases t (
            if old.ptr == 0
            then idle
            else holding (record old { external_count = old.external_count + 1 }));
      }
      else set_phase t (increasing s.head) s

  -- The compare-exchange of `pop`. `ptr->next` is written only before the node is shared, so that
  -- its read belongs to this step.
  pub exchange_head : ℕ → Counted → System A → System A
  exchange_head t old s =
      if same s.head old
      then record s {
        head = s.next old.ptr;
        phases = update s.phases t (won old);
        history = popped (s.content old.ptr) ∷ s.history;
      }
      else set_phase t (failing old.ptr s.head) s

  -- `res.swap(ptr->data)`
  pub take_data : ℕ → Counted → Option A → System A → Option (System A)
  take_data t old none s = none
  take_data t old (some x) s = some (record s {
    content = update s.content old.ptr none;
    phases = update s.phases t (adding old);
  })

  -- `fetch_add(count_increase)`, and the test for its opposite.
  pub add_count : ℕ → Counted → System A → System A
  add_count t old s =
      let i = s.internal_count old.ptr in
      let increase = old.external_count - 2 in
      record s {
        internal_count =
            update s.internal_count old.ptr (sub_ℕ (pos_part i + increase) (neg_part i));
        phases =
            update s.phases t
              (if pos_part i + increase == neg_part i then deleting old.ptr none else idle);
      }

  -- `fetch_add(-1)`, and the test for 1.
  pub drop_count : ℕ → ℕ → Counted → System A → System A
  drop_count t n later s =
      let i = s.internal_count n in
      record s {
        internal_count = update s.internal_count n (sub_ℕ (pos_part i) (neg_part i + 1));
        phases =
            update s.phases t
              (if pos_part i == 1 then deleting n (some later) else increasing later);
      }

  abbrev pub after_delete : Option Counted → Phase A
  after_delete none = idle
  after_delete (some later) = increasing later

  -- A step that uses the node at an address. `none` is a use of an address that is not in use.
  pub using : ℕ → System A → Option (System A) → Option (System A)
  using n s r = if s.in_use n then r else none

  pub advance : ℕ → Phase A → Choice A → System A → Option (System A)
  unfolding begin_push retry_push link increase_head_count exchange_head take_data add_count
      drop_count using
  advance t idle (begins_push x a) s = some (begin_push t x a s)
  advance t idle begins_pop s = some (set_phase t (increasing s.head) s)
  advance t idle goes_on s = some s
  advance t idle fails_weakly s = some s
  advance t (pushing n) fails_weakly s = using n s (some (retry_push t n s))
  advance t (pushing n) choice s =
      using n s
        (if same s.head (s.next n) then link t n (s.content n) s else some (retry_push t n s))
  advance t (increasing old) choice s = some (increase_head_count t old s)
  advance t (holding old) choice s = using old.ptr s (some (exchange_head t old s))
  advance t (won old) choice s = using old.ptr s (take_data t old (s.content old.ptr) s)
  advance t (adding old) choice s = using old.ptr s (some (add_count t old s))
  advance t (failing n later) choice s = using n s (some (drop_count t n later s))
  advance t (deleting n after) choice s = using n s (
      some (record s {
        in_use = update s.in_use n false;
        phases = update s.phases t (after_delete after);
      }))

  -- Threads from `threads` on do not exist.
  pub run : ℕ → List (ℕ × Choice A) → System A → Option (System A)
  unfolding advance
  run threads [] s = some s
  run threads ((t, choice) ∷ rest) s =
      (if ltb t threads then advance t (s.phases t) choice s else some s) >>= run threads rest
