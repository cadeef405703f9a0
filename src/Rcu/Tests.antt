-- ===== src/Rcu/Tests.antt =====
-- Runs of rcu.hpp, and its theorems at concrete inputs.
use emb_linux.Prelude.{
  zero, suc, suc, ℕ, ◌≡◌, ◌≢◌, refl, inl, List, [], ◌∷◌, true, false, some, arith,
}
use emb_linux.Rcu.{
  leave, nest, nested, Domain, Turn, stay, reader_turn, writer_turn, run, initial, new_domain,
  spinning,
}
use emb_linux.Rcu.Invariant.{retired}
use emb_linux.Rcu.Safety.{no_use_after_free, no_double_free}

-- Reader 0 registers, locks and reads the first object; writer 5 swaps it out and waits for it.
abbrev read_then_update : List Turn
read_then_update =
    reader_turn 0 stay
    ∷ reader_turn 0 stay
    ∷ reader_turn 0 stay
    ∷ reader_turn 0 stay
    ∷ reader_turn 0 stay
    ∷ writer_turn 5 false
    ∷ writer_turn 5 false
    ∷ writer_turn 5 false
    ∷ writer_turn 5 false
    ∷ []

waits : (run read_then_update initial).writers 5 ≡ spinning 1 2 0
unfolding run
waits = refl

-- The same, but the reader locks its slot again and unlocks it: the object that it has read in the outer
-- section is deleted.
abbrev looks_at : ℕ → List Turn
looks_at zero = []
looks_at (suc n) = writer_turn 5 false ∷ looks_at n

abbrev nested_sections : List Turn
nested_sections =
    reader_turn 0 stay
    ∷ reader_turn 0 stay
    ∷ reader_turn 0 stay
    ∷ reader_turn 0 stay
    ∷ reader_turn 0 stay
    ∷ reader_turn 0 nest
    ∷ reader_turn 0 nest
    ∷ reader_turn 0 leave
    ∷ looks_at 69

deleted_in_section :
    ((run nested_sections initial).readers 0 ≡ nested 0 (1 ∷ []))
    × ((run nested_sections initial).freed 1 ≡ true)
unfolding run
deleted_in_section = (refl, refl)

no_use_after_free_example : (run read_then_update initial).freed 1 ≡ false
unfolding run
no_use_after_free_example = no_use_after_free read_then_update 0 1 (omega arith) (inl refl)

no_double_free_example :
    ((run read_then_update initial).freed 1 ≡ false)
    × (1 ≢ (run read_then_update initial).ptr)
    × (retired ((run read_then_update initial).writers 5) ≡ some 1 → ◌≡◌ {A = ℕ} 5 5)
unfolding run
no_double_free_example = no_double_free read_then_update 5 5 1 (omega arith) refl

-- A full domain.
abbrev full : Domain
full = record new_domain { in_use = λ i. true }
