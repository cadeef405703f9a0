-- ===== src/HazardPointers.antt =====
-- modern_cpp_core/data_structures/hazard_pointer.hpp: the table of hazard pointers, its owners, and
-- the list of data to reclaim. Threads are numbered from 1; 0 is the id of no thread, and the null
-- pointer. The owners' accesses are made one at a time; the sweep of the list is a call run alone.
pub mod Owners
pub mod Sweep
mod Tests
use emb_linux.Prelude.{
  ℕ, zero, suc, List, [], ◌∷◌, Bool, true, false, Option, none, some, ◌==◌, ltb, if◌then◌else◌,
  update,
}

abbrev pub max_hazard_pointers : ℕ
max_hazard_pointers = 100

-- Where the `HazardPointerOwner` of a thread stands: without a slot, in the loop of `try_acquire`,
-- with a slot, and in its destructor, between the two stores.
pub data Owner : Type 0 where
  nowhere : Owner
  trying : (i : ℕ) → Owner
  holding : (i : ℕ) → Owner
  clearing : (i : ℕ) → Owner

-- `g_hazard_pointers` as two arrays, the owners by thread, and `g_nodes_to_reclaim`.
pub record Hazards : Type 0 where
  pub id : ℕ → ℕ
  pub pointer : ℕ → ℕ
  pub owners : ℕ → Owner
  pub to_reclaim : List ℕ
  pub deleted : List ℕ

abbrev pub new : Hazards
new = record { id = λ i. 0; pointer = λ i. 0; owners = λ t. nowhere; to_reclaim = []; deleted = [] }

abbrev pub set_owner : ℕ → Owner → Hazards → Hazards
set_owner t o h = record h { owners = update h.owners t o }

-- What a thread does next: it asks for its hazard pointer, stores a pointer there, or ends.
pub data Wish : Type 0 where
  gets : Wish
  stores : (p : ℕ) → Wish
  ends : Wish

-- `get_hazard_pointer_for_current_thread`, the stores of the thread, and the destructor. Within
-- `try_acquire` and the destructor the wish is not read.
pub own : ℕ → Owner → Wish → Hazards → Hazards
own t nowhere gets h = set_owner t (trying 0) h
own t nowhere (stores p) h = h
own t nowhere ends h = h
own t (trying i) wish h =
    if ltb i max_hazard_pointers
    then if h.id i == 0
      then record h { id = update h.id i t; owners = update h.owners t (holding i) }
      else set_owner t (trying (suc i)) h
    else set_owner t nowhere h
own t (holding i) gets h = h
own t (holding i) (stores p) h = record h { pointer = update h.pointer i p }
own t (holding i) ends h = record h {
  pointer = update h.pointer i 0;
  owners = update h.owners t (clearing i);
}
own t (clearing i) wish h = record h { id = update h.id i 0; owners = update h.owners t nowhere }

-- A turn of a thread; 0 is none.
pub run : List (ℕ × Wish) → Hazards → Hazards
unfolding own
run [] h = h
run ((t, wish) ∷ rest) h = run rest (if t == 0 then h else own t (h.owners t) wish h)

-- The loop of `outstanding_hazard_pointers_for` with this many slots left, the next of them `i`.
pub outstanding_from : ℕ → ℕ → ℕ → Hazards → Bool
outstanding_from zero i p h = false
outstanding_from (suc left) i p h =
    if h.pointer i == p then true else outstanding_from left (suc i) p h

pub outstanding_hazard_pointers_for : ℕ → Hazards → Bool
unfolding outstanding_from
outstanding_hazard_pointers_for p h = outstanding_from max_hazard_pointers 0 p h

-- `reclaim_later`
pub reclaim_later : ℕ → Hazards → Hazards
reclaim_later p h = record h { to_reclaim = p ∷ h.to_reclaim }

-- The loop of `delete_nodes_with_no_hazards` over the nodes that it has taken.
pub sweep : List ℕ → Hazards → Hazards
unfolding outstanding_hazard_pointers_for reclaim_later
sweep [] h = h
sweep (p ∷ ps) h = sweep ps (
    if outstanding_hazard_pointers_for p h
    then reclaim_later p h
    else record h { deleted = p ∷ h.deleted })

pub delete_nodes_with_no_hazards : Hazards → Hazards
unfolding sweep
delete_nodes_with_no_hazards h = sweep h.to_reclaim (record h { to_reclaim = [] })
