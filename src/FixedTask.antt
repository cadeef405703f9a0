-- ===== src/FixedTask.antt =====
-- The class FixedTask of modern_cpp_core/concurrency/fixed_task.hpp: a callable in a fixed storage,
-- with its moves. Objects are numbered. A Model is constructed in a storage and destroyed there; to
-- construct one over another, or to use or destroy one that is not there, answers `none`. A moved
-- callable is the callable, which is a property of its type.
pub mod Ownership
pub mod Calls
pub mod Programs
mod Tests
use emb_linux.Prelude.{
  ◌>>=◌, ℕ, zero, suc, ◌+◌, List, [], ◌∷◌, Bool, true, false, ◌&&◌, not, Option, none, some, ◌==◌,
  ltb, if◌then◌else◌, update,
}

-- `made` and `destroyed` count the Models; `invoked` lists the callables that ran, the last one first.
pub record Tasks {ℓ} (F : Type ℓ) : Type ℓ where
  pub exists : ℕ → Bool
  pub storage : ℕ → Option F
  pub m_concept : ℕ → Bool
  pub made : ℕ
  pub destroyed : ℕ
  pub invoked : List F

-- The operations of the class, of the object `i`.
pub data Call {ℓ} (F : Type ℓ) : Type ℓ where
  constructs : (i : ℕ) → Call F
  constructs_from : (i : ℕ) → F → Call F
  move_constructs : (i other : ℕ) → Call F
  move_assigns : (i other : ℕ) → Call F
  destructs : (i : ℕ) → Call F
  invokes : (i : ℕ) → Call F

abbrev pub no_tasks {ℓ} : {F : Type ℓ} → Tasks F
no_tasks = record {
  exists = λ i. false;
  storage = λ i. none;
  m_concept = λ i. false;
  made = 0;
  destroyed = 0;
  invoked = [];
}

module _ {ℓ} {F : Type ℓ} where
  -- `new (dest) Model(...)`, where this is in the storage so far.
  abbrev pub make_model : ℕ → F → Option F → Tasks F → Option (Tasks F)
  make_model i f none s =
      some (record s { storage = update s.storage i (some f); made = suc s.made })
  make_model i f (some g) s = none

  -- `~Concept()`
  abbrev pub destroy_model : ℕ → Option F → Tasks F → Option (Tasks F)
  destroy_model i none s = none
  destroy_model i (some f) s =
      some (record s { storage = update s.storage i none; destroyed = suc s.destroyed })

  abbrev pub set_concept : ℕ → Bool → Tasks F → Option (Tasks F)
  set_concept i b s = some (record s { m_concept = update s.m_concept i b })

  -- A Model in the storage, and `m_concept` at it.
  pub place : ℕ → F → Tasks F → Option (Tasks F)
  place i f s = make_model i f (s.storage i) s >>= set_concept i true

  -- The Model of the storage destroyed, and `m_concept` null.
  pub clear : ℕ → Tasks F → Option (Tasks F)
  clear i s = destroy_model i (s.storage i) s >>= set_concept i false

  -- `move_to`, a virtual call on the Model of `other`.
  abbrev pub move_model : ℕ → Option F → Tasks F → Option (Tasks F)
  move_model i none s = none
  move_model i (some f) s = place i f s

  -- What the move constructor and the move assignment do with `other`.
  pub take_over : ℕ → ℕ → Tasks F → Option (Tasks F)
  unfolding place clear
  take_over i other s =
      if s.m_concept other then move_model i (s.storage other) s >>= clear other else some s

  abbrev pub new_object : ℕ → Tasks F → Tasks F
  new_object i s = record s {
    exists = update s.exists i true;
    m_concept = update s.m_concept i false;
  }

  pub construct_from : ℕ → F → Tasks F → Option (Tasks F)
  unfolding place
  construct_from i f s = place i f (new_object i s)

  pub move_construct : ℕ → ℕ → Tasks F → Option (Tasks F)
  unfolding take_over
  move_construct i other s = take_over i other (new_object i s)

  abbrev pub drop_model : ℕ → Tasks F → Option (Tasks F)
  drop_model i s = if s.m_concept i then clear i s else some s

  unfoldable pub move_assign : ℕ → ℕ → Tasks F → Option (Tasks F)
  unfolding take_over
  move_assign i other s = if i == other then some s else drop_model i s >>= take_over i other

  abbrev pub end_object : ℕ → Tasks F → Option (Tasks F)
  end_object i s = some (record s { exists = update s.exists i false })

  -- The destructor. `m_concept`, which it leaves, is gone with the object.
  pub destruct : ℕ → Tasks F → Option (Tasks F)
  destruct i s =
      (if s.m_concept i then destroy_model i (s.storage i) s else some s) >>= end_object i

  abbrev pub invoke_model : Option F → Tasks F → Option (Tasks F)
  invoke_model none s = none
  invoke_model (some f) s = some (record s { invoked = f ∷ s.invoked })

  -- `operator()`
  pub invoke : ℕ → Tasks F → Option (Tasks F)
  invoke i s = if s.m_concept i then invoke_model (s.storage i) s else some s

  pub call : Call F → Tasks F → Option (Tasks F)
  unfolding construct_from move_construct move_assign destruct invoke
  call (constructs i) s = some (new_object i s)
  call (constructs_from i f) s = construct_from i f s
  call (move_constructs i other) s = move_construct i other s
  call (move_assigns i other) s = move_assign i other s
  call (destructs i) s = destruct i s
  call (invokes i) s = invoke i s

  -- A program constructs an object where there is none, and uses one only while it exists.
  abbrev pub is_legal : (ℕ → Bool) → Call F → Bool
  is_legal exists (constructs i) = not (exists i)
  is_legal exists (constructs_from i f) = not (exists i)
  is_legal exists (move_constructs i other) = not (exists i) && exists other
  is_legal exists (move_assigns i other) = exists i && exists other
  is_legal exists (destructs i) = exists i
  is_legal exists (invokes i) = exists i

  abbrev pub object : Call F → ℕ
  object (constructs i) = i
  object (constructs_from i f) = i
  object (move_constructs i other) = i
  object (move_assigns i other) = i
  object (destructs i) = i
  object (invokes i) = i

  -- A program with `objects` places for objects. What is no program of C++ is passed over.
  pub run : ℕ → List (Call F) → Tasks F → Option (Tasks F)
  unfolding call
  run objects [] s = some s
  run objects (c ∷ cs) s =
      (if ltb (object c) objects && is_legal s.exists c then call c s else some s)
      >>= run objects cs
