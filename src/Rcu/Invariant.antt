-- ===== src/Rcu/Invariant.antt =====
-- What holds of readers, writers and objects of rcu.hpp between any two accesses.
use emb_linux.Prelude.{ℕ, ◌≤◌, ◌<◌, ◌≡◌, ◌≢◌, ◌⊎◌, List, [], ◌∷◌, true, false, Option, none, some}
use emb_linux.Rcu.{
  Domain, Reader, Writer, System, registering, outside, locking, inside, nesting, nested, idle,
  swapped, max_rcu_threads, scanning, spinning,
}

abbrev pub In : ℕ → List ℕ → Type 0
In p [] = ⊥
In p (x ∷ xs) = (p ≡ x) ⊎ In p xs

-- The pointers that a reader has read in its section, as long as it has not locked its slot again there.
-- A second lock, which overwrites the epoch, ends what the domain promises for the section.
abbrev pub held : Reader → List ℕ
held (inside ps) = ps
held _ = []

abbrev pub ReaderOk : Domain → ℕ → Reader → Type 0
ReaderOk d j registering = (d.in_use j ≡ true) × Unit {0}
ReaderOk d j outside = (d.in_use j ≡ true) × Unit {0}
ReaderOk d j (locking e) = (d.in_use j ≡ true) × (1 ≤ e) × (e ≤ d.global_epoch)
ReaderOk d j (inside ps) = (d.in_use j ≡ true) × (1 ≤ d.epoch j) × (d.epoch j ≤ d.global_epoch)
ReaderOk d j (nesting e around ps) = (d.in_use j ≡ true) × Unit {0}
ReaderOk d j (nested around ps) = (d.in_use j ≡ true) × Unit {0}
ReaderOk d j _ = Unit

-- The object that a writer is to delete.
abbrev pub retired : Writer → Option ℕ
retired idle = none
retired (swapped old) = some old
retired (scanning old e i) = some old
retired (spinning old e i) = some old

-- The slots that a writer has found to be safe are those below this one.
abbrev pub passed : Writer → ℕ
passed (scanning old e i) = i
passed (spinning old e i) = i
passed _ = 0

-- A reader that holds the object was there before the writer's epoch.
abbrev pub IsBefore : Writer → ℕ → Type 0
IsBefore (scanning old new_epoch i) e = e < new_epoch
IsBefore (spinning old new_epoch i) e = e < new_epoch
IsBefore _ e = Unit

-- `bound` limits the global epoch.
pub record Inv (bound : ℕ) (s : System) : Type 0 where
  pub started : 1 ≤ s.domain.global_epoch
  pub small : s.domain.global_epoch ≤ bound
  pub reader_ok : (j : ℕ) → ReaderOk s.domain j (s.readers j)
  pub ptr_below : s.ptr < s.next_object
  pub ptr_live : s.freed s.ptr ≡ false
  pub null_live : s.freed 0 ≡ false
  pub fresh : (p : ℕ) → s.next_object ≤ p → s.freed p ≡ false
  pub held_live : (j p : ℕ) → In p (held (s.readers j)) → (s.freed p ≡ false) × (p < s.next_object)
  pub retired_live :
      (w old : ℕ)
      → retired (s.writers w) ≡ some old
      → (old ≢ 0) × (old ≢ s.ptr) × (old < s.next_object) × (s.freed old ≡ false)
  pub unique :
      (w v old : ℕ) → retired (s.writers w) ≡ some old → retired (s.writers v) ≡ some old → w ≡ v
  pub before :
      (w j old : ℕ)
      → retired (s.writers w) ≡ some old
      → In old (held (s.readers j))
      → IsBefore (s.writers w) (s.domain.epoch j)
  pub clear :
      (w j old : ℕ)
      → retired (s.writers w) ≡ some old
      → j < passed (s.writers w)
      → ¬ In old (held (s.readers j))
  pub beyond : (j : ℕ) → max_rcu_threads ≤ j → held (s.readers j) ≡ []
