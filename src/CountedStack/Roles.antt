-- ===== src/CountedStack/Roles.antt =====
-- What a node of lock_free_stack is for: the invariant of its reference counts.
use emb_linux.Prelude.{
  ℕ, ◌+◌, ◌<◌, ◌≡◌, ◌≢◌, List, [], ◌∷◌, Bool, true, false, Option, none, some, bit, ◌==◌, sum, pos,
  pos_part, neg_part,
}
use emb_linux.CountedStack.{
  Counted, Phase, pushing, holding, won, adding, failing, deleting, System, Event, pushed, popped,
}

-- The node at an address: not in use, in the hands of the thread that pushes it, in the stack behind
-- a pointer with this count, out of it by the exchange of this thread with this count, out of it with
-- its counts merged, or about to be deleted by this thread.
pub data Role : Type 0 where
  free : Role
  fresh : (t : ℕ) → Role
  stacked : (external : ℕ) → Role
  taken : (t external : ℕ) → Role
  shared : Role
  dying : (t : ℕ) → Role

abbrev pub is_some {ℓ} : {A : Type ℓ} → Option A → Bool
is_some none = false
is_some (some x) = true

-- Whether a thread counts as a reference to the node.
abbrev pub refers {ℓ} : {A : Type ℓ} → Phase A → ℕ → ℕ
refers (holding old) n = bit (old.ptr == n)
refers (won old) n = bit (old.ptr == n)
refers (adding old) n = bit (old.ptr == n)
refers (failing m later) n = bit (m == n)
refers _ n = 0

module _ {ℓ} {A : Type ℓ} (threads : ℕ) where
  abbrev pub references : System A → ℕ → ℕ
  references s n = sum (λ t. refers (s.phases t) n) threads

  -- The counts of a node in its role.
  abbrev pub Counts : System A → ℕ → Role → Type 0
  Counts s n free = (s.in_use n ≡ false) × (references s n ≡ 0)
  Counts s n (fresh t) =
      (s.in_use n ≡ true)
      × (references s n ≡ 0)
      × (s.internal_count n ≡ pos 0)
      × (is_some (s.content n) ≡ true)
  Counts s n (stacked e) =
      (s.in_use n ≡ true)
      × (pos_part (s.internal_count n) ≡ 0)
      × (e ≡ 1 + references s n + neg_part (s.internal_count n))
  Counts s n (taken t e) =
      (s.in_use n ≡ true)
      × (pos_part (s.internal_count n) ≡ 0)
      × (e ≡ 1 + references s n + neg_part (s.internal_count n))
  Counts s n shared =
      (s.in_use n ≡ true)
      × (neg_part (s.internal_count n) ≡ 0)
      × (pos_part (s.internal_count n) ≡ references s n)
      × (0 < references s n)
  Counts s n (dying t) = (s.in_use n ≡ true) × (references s n ≡ 0)

-- What the phase of thread `t` says of the roles.
abbrev pub Knows {ℓ} : {A : Type ℓ} → (ℕ → Role) → (ℕ → Option A) → ℕ → Phase A → Type 0
Knows role content t (pushing n) = role n ≡ fresh t
Knows role content t (won old) =
    (role old.ptr ≡ taken t old.external_count) × (is_some (content old.ptr) ≡ true)
Knows role content t (adding old) = role old.ptr ≡ taken t old.external_count
Knows role content t (deleting n after) = role n ≡ dying t
Knows role content t _ = Unit

abbrev pub NotAmong {ℓ} : {A : Type ℓ} → ℕ → List (ℕ × A) → Type 0
NotAmong n [] = Unit
NotAmong n ((m, x) ∷ rest) = (n ≢ m) × NotAmong n rest

-- The end of the stack is a null pointer.
pub record IsEnd {ℓ} (A : Type ℓ) (c : Counted) : Type ℓ where
  pub null : c.ptr ≡ 0

-- A counted pointer leads through these nodes, each stacked with the count of the pointer to it.
abbrev pub Linked {ℓ} :
    {A : Type ℓ} → (ℕ → Role) → (ℕ → Option A) → (ℕ → Counted) → Counted → List (ℕ × A) → Type ℓ
Linked {A} role content next c [] = IsEnd A c
Linked role content next c ((n, x) ∷ rest) =
    (c.ptr ≡ n)
    × (role n ≡ stacked c.external_count)
    × (content n ≡ some x)
    × NotAmong n rest
    × Linked role content next (next n) rest

abbrev pub values {ℓ} : {A : Type ℓ} → List (ℕ × A) → List A
values [] = []
values ((n, x) ∷ rest) = x ∷ values rest

-- A history, the last event first, is one of a stack that ends with these values.
abbrev pub IsStackHistory {ℓ} : {A : Type ℓ} → List (Event A) → List A → Type ℓ
IsStackHistory [] vs = vs ≡ []
IsStackHistory {A} (pushed x ∷ earlier) vs =
    (ws : List A) × (vs ≡ x ∷ ws) × IsStackHistory earlier ws
IsStackHistory {A} (popped o ∷ earlier) vs =
    (x : A) × (o ≡ some x) × IsStackHistory earlier (x ∷ vs)

pub record Inv {ℓ} {A : Type ℓ} (threads : ℕ) (role : ℕ → Role) (stack : List (ℕ × A))
    (s : System A) : Type ℓ where
  pub null_free : role 0 ≡ free
  pub counts : (n : ℕ) → Counts threads s n (role n)
  pub knows : (t : ℕ) → t < threads → Knows role s.content t (s.phases t)
  pub linked : Linked role s.content s.next s.head stack
  pub history : IsStackHistory s.history (values stack)
