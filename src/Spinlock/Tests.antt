-- ===== src/Spinlock/Tests.antt =====
-- A run of spinlock.hpp, and its theorem at a concrete input.
use emb_linux.Prelude.{ℕ, ◌≡◌, refl, List, [], ◌∷◌, true}
use emb_linux.Spinlock.{new, run, access}
use emb_linux.Spinlock.Exclusion.{is_inside, mutual_exclusion}

-- Thread 1 enters, thread 2 spins, thread 1 leaves, and thread 2 enters.
abbrev script : List ℕ
script = 1 ∷ 2 ∷ 2 ∷ 1 ∷ 2 ∷ 2 ∷ []

second_enters : is_inside ((run script new).threads 2) ≡ true
unfolding run access
second_enters = refl

mutual_exclusion_example : ◌≡◌ {A = ℕ} 2 2
mutual_exclusion_example = mutual_exclusion script 2 2 second_enters second_enters
