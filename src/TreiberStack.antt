-- ===== src/TreiberStack.antt =====
-- The class LockFreeStack of C++_ConcurrencyInAction/memory_atomicOperation/treiberStack.cpp, one access
-- of the head or of a node at a time. Addresses are numbers and 0 is null; the one that `new` returns is
-- a parameter of its turn, any that is not in use.
pub mod Invariant
pub mod Moves
pub mod Pops
pub mod OnePopper
mod Tests
use emb_linux.Prelude.{
  not, ℕ, List, [], ◌∷◌, Bool, true, false, Option, none, some, ◌==◌, ◌||◌, ◌>>=◌, if◌then◌else◌,
  update,
}

-- A thread: outside the calls; in push with a new node, before the load of the head and before the
-- compare-exchange; in pop with the head that it has seen, with that node's `next` too, or with the node
-- that it has removed.
pub data Phase : Type 0 where
  idle : Phase
  fresh : (new_node : ℕ) → Phase
  pushing : (new_node : ℕ) → Phase
  popping : (old_head : ℕ) → Phase
  swinging : (old_head next : ℕ) → Phase
  won : (old_head : ℕ) → Phase

pub data Event {ℓ} (A : Type ℓ) : Type ℓ where
  pushed : A → Event A
  popped : A → Event A

-- `history` lists the successful compare-exchanges and `results` what pop has returned, the last first.
pub record System {ℓ} (A : Type ℓ) : Type ℓ where
  pub head : ℕ
  pub next : ℕ → ℕ
  pub content : ℕ → A
  pub in_use : ℕ → Bool
  pub phases : ℕ → Phase
  pub history : List (Event A)
  pub results : List A

-- A weak compare-exchange may fail without a reason.
pub data Choice {ℓ} (A : Type ℓ) : Type ℓ where
  begins_push : (x : A) (address : ℕ) → Choice A
  begins_pop : Choice A
  goes_on : Choice A
  fails_weakly : Choice A

module _ {ℓ} {A : Type ℓ} where
  abbrev pub new : (ℕ → A) → System A
  new memory = record {
    head = 0;
    next = λ n. 0;
    content = memory;
    in_use = λ n. false;
    phases = λ t. idle;
    history = [];
    results = [];
  }

  abbrev pub set_phase : ℕ → Phase → System A → System A
  set_phase t p s = record s { phases = update s.phases t p }

  -- An access to a node that is not in use is undefined.
  pub using : ℕ → System A → System A → Option (System A)
  using n s s' = if s.in_use n then some s' else none

  abbrev pub construct : ℕ → A → ℕ → System A → System A
  construct t x n s = record s {
    next = update s.next n 0;
    content = update s.content n x;
    in_use = update s.in_use n true;
    phases = update s.phases t (fresh n);
  }

  -- `new_node->next` is set to the head, by the load and by a compare-exchange that fails.
  abbrev pub read_head : ℕ → ℕ → System A → System A
  read_head t n s = record s {
    next = update s.next n s.head;
    phases = update s.phases t (pushing n);
  }

  abbrev pub link : ℕ → ℕ → System A → System A
  link t n s = record s {
    head = n;
    phases = update s.phases t idle;
    history = pushed (s.content n) ∷ s.history;
  }

  abbrev pub unlink : ℕ → ℕ → ℕ → System A → System A
  unlink t old n s = record s {
    head = n;
    phases = update s.phases t (won old);
    history = popped (s.content old) ∷ s.history;
  }

  -- The data is read and the node deleted.
  abbrev pub delete : ℕ → ℕ → System A → System A
  delete t old s = record s {
    in_use = update s.in_use old false;
    phases = update s.phases t idle;
    results = s.content old ∷ s.results;
  }

  abbrev pub begin : ℕ → Choice A → System A → System A
  begin t (begins_push x n) s = if n == 0 || s.in_use n then s else construct t x n s
  begin t begins_pop s = set_phase t (popping s.head) s
  begin t goes_on s = s
  begin t fails_weakly s = s

  abbrev pub is_weak : Choice A → Bool
  is_weak (begins_push x n) = false
  is_weak begins_pop = false
  is_weak goes_on = false
  is_weak fails_weakly = true

  pub advance : ℕ → Choice A → Phase → System A → Option (System A)
  unfolding using
  advance t c idle s = some (begin t c s)
  advance t c (fresh n) s = using n s (read_head t n s)
  advance t c (pushing n) s =
      using n s (if is_weak c || not (s.head == s.next n) then read_head t n s else link t n s)
  advance t c (popping old) s =
      if old == 0
      then some (set_phase t idle s)
      else using old s (set_phase t (swinging old (s.next old)) s)
  advance t c (swinging old n) s = some (
      if is_weak c || not (s.head == old) then set_phase t (popping s.head) s else unlink t old n s)
  advance t c (won old) s = using old s (delete t old s)

  pub run : List (ℕ × Choice A) → System A → Option (System A)
  unfolding advance
  run [] s = some s
  run ((t, c) ∷ cs) s = do s' ← advance t c (s.phases t) s; run cs s'
