-- ===== src/ThreadsafeList.antt =====
-- The class threadsafe_list of C++_ConcurrencyInAction/designLockBase/dataStructures.hpp: a list with a
-- mutex in each node, walked hand over hand. A lock, an unlock, and what is done between them is a
-- step. An address is a number that the allocator chooses among those that are not in use; 0 is the
-- dummy head, which no `next` leads to, so that it also stands for the null pointer.
pub mod Roles
pub mod Frames
pub mod Locking
pub mod Orders
pub mod Linking
pub mod Cutting
pub mod Safety
pub mod Progress
mod Tests
use emb_linux.Prelude.{
  ◌>>=◌, ℕ, zero, suc, List, [], ◌∷◌, Bool, true, false, ◌||◌, Option, none, some, ◌==◌, ltb,
  if◌then◌else◌, update,
}

-- A walk of the list: `for_each`, `find_first_if` or `remove_if`.
pub data Walk {ℓ} (A : Type ℓ) : Type ℓ where
  calls : Walk A
  finds : (p : A → Bool) → Walk A
  removes : (p : A → Bool) → Walk A

-- Where a thread stands: between calls; in push_front with its node, before the lock of the head and
-- with it; in a walk before the lock of the head, at a node whose lock it has, with the locks of a node
-- and the next one, before the function or predicate is called on a node, and with a node that
-- remove_if has taken out and not yet deleted.
pub data Phase {ℓ} (A : Type ℓ) : Type ℓ where
  idle : Phase A
  pushing : (node : ℕ) → Phase A
  linking : (node : ℕ) → Phase A
  entering : (walk : Walk A) → Phase A
  standing : (current : ℕ) (walk : Walk A) → Phase A
  reaching : (current next : ℕ) (walk : Walk A) → Phase A
  visiting : (node : ℕ) (walk : Walk A) → Phase A
  dropping : (current old_next : ℕ) (walk : Walk A) → Phase A

-- `owner` says which thread has the mutex of a node. `visited` and `found` list what for_each has called
-- its function on and what find_first_if has returned, with the thread, the last one first.
pub record System {ℓ} (A : Type ℓ) : Type ℓ where
  pub in_use : ℕ → Bool
  pub content : ℕ → Option A
  pub next : ℕ → ℕ
  pub owner : ℕ → Option ℕ
  pub phases : ℕ → Phase A
  pub visited : List (ℕ × A)
  pub found : List (ℕ × Option A)

abbrev pub new {ℓ} : {A : Type ℓ} → System A
new = record {
  in_use = λ n. n == 0;
  content = λ n. none;
  next = λ n. 0;
  owner = λ n. none;
  phases = λ t. idle;
  visited = [];
  found = [];
}

-- What a thread does next when it may choose: the call that it begins, for push_front with the address
-- that `new` gives.
pub data Choice {ℓ} (A : Type ℓ) : Type ℓ where
  begins_push : A → (address : ℕ) → Choice A
  begins_walk : Walk A → Choice A
  goes_on : Choice A

module _ {ℓ} {A : Type ℓ} where
  abbrev pub set_phase : ℕ → Phase A → System A → System A
  set_phase t p s = record s { phases = update s.phases t p }

  abbrev pub release : ℕ → System A → System A
  release n s = record s { owner = update s.owner n none }

  -- A mutex that is taken, and then phase `p`; a thread that finds it taken waits.
  abbrev pub acquire : ℕ → ℕ → Phase A → Option ℕ → System A → System A
  acquire t n p none s = record s {
    owner = update s.owner n (some t);
    phases = update s.phases t p;
  }
  acquire t n p (some u) s = s

  -- `new node(value)`
  pub begin_push : ℕ → A → ℕ → System A → System A
  begin_push t x a s = if s.in_use a || a == 0 then s else record s {
    in_use = update s.in_use a true;
    content = update s.content a (some x);
    next = update s.next a 0;
    owner = update s.owner a none;
    phases = update s.phases t (pushing a);
  }

  pub link : ℕ → ℕ → System A → System A
  link t n s = record s {
    next = update (update s.next n (s.next 0)) 0 n;
    owner = update s.owner 0 none;
    phases = update s.phases t idle;
  }

  -- The end of the list: the last lock is released, and a search has found nothing.
  abbrev pub miss : ℕ → Walk A → List (ℕ × Option A) → List (ℕ × Option A)
  miss t (finds p) found = (t, none) ∷ found
  miss t _ found = found

  pub leave : ℕ → ℕ → Walk A → System A → System A
  leave t c w s = record s {
    owner = update s.owner c none;
    phases = update s.phases t idle;
    found = miss t w s.found;
  }

  -- `remove_if` with both locks, before and after a match.
  abbrev pub remove_next : ℕ → ℕ → ℕ → (A → Bool) → A → System A → System A
  remove_next t c n p x s =
      if p x
      then record s {
        next = update (update s.next c (s.next n)) n 0;
        owner = update s.owner n none;
        phases = update s.phases t (dropping c n (removes p));
      }
      else set_phase t (standing n (removes p)) (release c s)

  pub step_over : ℕ → ℕ → ℕ → Walk A → Option A → System A → Option (System A)
  step_over t c n (removes p) none s = none
  step_over t c n (removes p) (some x) s = some (remove_next t c n p x s)
  step_over t c n w o s = some (set_phase t (visiting n w) (release c s))

  -- The call of the function or of the predicate, with the lock of the node alone.
  pub visit : ℕ → ℕ → Walk A → Option A → System A → Option (System A)
  visit t n w none s = none
  visit t n (finds p) (some x) s = some (
      if p x
      then record s {
        owner = update s.owner n none;
        phases = update s.phases t idle;
        found = (t, some x) ∷ s.found;
      }
      else set_phase t (standing n (finds p)) s)
  visit t n w (some x) s =
      some (record (set_phase t (standing n w) s) { visited = (t, x) ∷ s.visited })

  -- A step that uses the node at an address. `none` is a use of an address that is not in use.
  abbrev pub using : ℕ → System A → Option (System A) → Option (System A)
  using n s r = if s.in_use n then r else none

  abbrev pub advance_from : ℕ → ℕ → Walk A → System A → Option (System A)
  advance_from t c w s =
      if s.next c == 0
      then some (leave t c w s)
      else using (s.next c) s
          (some (acquire t (s.next c) (reaching c (s.next c) w) (s.owner (s.next c)) s))

  pub advance : ℕ → Phase A → Choice A → System A → Option (System A)
  unfolding begin_push link leave step_over visit
  advance t idle (begins_push x a) s = some (begin_push t x a s)
  advance t idle (begins_walk w) s = some (set_phase t (entering w) s)
  advance t idle goes_on s = some s
  advance t (pushing n) choice s = using 0 s (some (acquire t 0 (linking n) (s.owner 0) s))
  advance t (linking n) choice s = using 0 s (using n s (some (link t n s)))
  advance t (entering w) choice s = using 0 s (some (acquire t 0 (standing 0 w) (s.owner 0) s))
  advance t (standing c w) choice s = using c s (advance_from t c w s)
  advance t (reaching c n w) choice s = using c s (using n s (step_over t c n w (s.content n) s))
  advance t (visiting n w) choice s = using n s (visit t n w (s.content n) s)
  advance t (dropping c n w) choice s = using n s (
      some
        (record s { in_use = update s.in_use n false; phases = update s.phases t (standing c w) }))

  -- Threads from `threads` on do not exist.
  pub run : ℕ → List (ℕ × Choice A) → System A → Option (System A)
  unfolding advance
  run threads [] s = some s
  run threads ((t, choice) ∷ rest) s =
      (if ltb t threads then advance t (s.phases t) choice s else some s) >>= run threads rest
