-- ===== src/ThreadsafeList/Roles.antt =====
-- What the nodes of threadsafe_list are for, and which thread has which lock.
use emb_linux.Prelude.{ℕ, ◌<◌, ◌≡◌, ◌≢◌, ◌⊎◌, Bool, true, false, Option, none, some}
use emb_linux.ThreadsafeList.{
  Phase, pushing, linking, standing, reaching, visiting, dropping, System,
}

-- The node at an address: not in use, in the list (the head is), or in the hands of the thread that
-- pushes or deletes it.
pub data Role : Type 0 where
  free : Role
  listed : Role
  private : (t : ℕ) → Role

abbrev pub is_some {ℓ} : {A : Type ℓ} → Option A → Bool
is_some none = false
is_some (some x) = true

abbrev pub Keeps {ℓ} : {A : Type ℓ} → System A → ℕ → Role → Type 0
Keeps s n free = (s.in_use n ≡ false) × (s.owner n ≡ none)
Keeps s n listed = (s.in_use n ≡ true) × (n ≢ 0 → is_some (s.content n) ≡ true)
Keeps s n (private t) = (s.in_use n ≡ true) × (s.owner n ≡ none) × (is_some (s.content n) ≡ true)

-- What the phase of thread `t` says of the nodes.
abbrev pub Knows {ℓ} : {A : Type ℓ} → (ℕ → Role) → System A → ℕ → Phase A → Type 0
Knows role s t (pushing n) = role n ≡ private t
Knows role s t (linking n) = (role n ≡ private t) × (s.owner 0 ≡ some t)
Knows role s t (standing c w) = (role c ≡ listed) × (s.owner c ≡ some t)
Knows role s t (reaching c n w) =
    (role c ≡ listed)
    × (s.owner c ≡ some t)
    × (s.next c ≡ n)
    × (n ≢ 0)
    × (role n ≡ listed)
    × (s.owner n ≡ some t)
Knows role s t (visiting n w) = (n ≢ 0) × (role n ≡ listed) × (s.owner n ≡ some t)
Knows role s t (dropping c n w) = (role c ≡ listed) × (s.owner c ≡ some t) × (role n ≡ private t)
Knows role s t _ = Unit

-- The phase is one that has the lock of the node.
abbrev pub Has {ℓ} : {A : Type ℓ} → ℕ → Phase A → Type 0
Has n (linking m) = 0 ≡ n
Has n (standing c w) = c ≡ n
Has n (reaching c d w) = (c ≡ n) ⊎ (d ≡ n)
Has n (visiting d w) = d ≡ n
Has n (dropping c d w) = c ≡ n
Has n _ = ⊥

-- `rank` goes down along the list.
pub record Ordered (role : ℕ → Role) (rank : ℕ → ℕ) (next : ℕ → ℕ) : Type 0 where
  pub follows :
      (c : ℕ) → role c ≡ listed → next c ≢ 0 → (role (next c) ≡ listed) × (rank (next c) < rank c)
  pub single : (c d : ℕ) → role c ≡ listed → role d ≡ listed → next c ≡ next d → next c ≢ 0 → c ≡ d

pub record Inv {ℓ} {A : Type ℓ} (threads : ℕ) (role : ℕ → Role) (rank : ℕ → ℕ) (s : System A)
    : Type ℓ where
  pub head : role 0 ≡ listed
  pub keeps : (n : ℕ) → Keeps s n (role n)
  pub ordered : Ordered role rank s.next
  pub knows : (t : ℕ) → t < threads → Knows role s t (s.phases t)
  pub held : (n u : ℕ) → s.owner n ≡ some u → (u < threads) × Has n (s.phases u)
