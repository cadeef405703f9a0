-- ===== src/HazardPointers/Tests.antt =====
-- Runs of hazard_pointer.hpp, and its theorems at concrete inputs.
use emb_linux.Prelude.{ℕ, ◌≡◌, ◌≢◌, refl, List, [], ◌∷◌, some, arith, ◌==◌, if◌then◌else◌}
use emb_linux.HazardPointers.{Hazards, new, Wish, gets, run, own}
use emb_linux.HazardPointers.Owners.{slot_of, run_exclusive}

-- Threads 1 and 2 both ask, and meet at slot 0.
abbrev script : List (ℕ × Wish)
script = (1, gets) ∷ (2, gets) ∷ (1, gets) ∷ (2, gets) ∷ (2, gets) ∷ []

first_slot : slot_of ((run script new).owners 1) ≡ some 0
unfolding run own
first_slot = refl

second_slot : slot_of ((run script new).owners 2) ≡ some 1
unfolding run own
second_slot = refl

run_exclusive_example : ◌≢◌ {A = ℕ} 0 1
run_exclusive_example = run_exclusive script 1 2 0 1 (λ e. omega arith) first_slot second_slot

-- Slot 1 protects 7.
abbrev busy : Hazards
busy = record new { pointer = λ i. if i == 1 then 7 else 0; to_reclaim = 5 ∷ 7 ∷ 9 ∷ [] }
