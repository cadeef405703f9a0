-- ===== src/ThreadsafeLookupTable/Tests.antt =====
-- Runs of the `threadsafe_lookup_table` of dataStructures.hpp, and its theorem at a concrete input.
use emb_linux.Prelude.{some, ℕ, ◌≡◌, refl, List, [], ◌∷◌, none, map, ◌==◌, ◌↔◌, true, arith}
use emb_linux.Table.{KeyEq, map_run}
use emb_linux.ThreadsafeLookupTable.{TableCall, adds, asks, removes, run}
use emb_linux.ThreadsafeLookupTable.Laws.{plain, defaults, with_defaults, run_refines_table}

equal_iff : (a b : ℕ) → ((a == b) ≡ true) ↔ (a ≡ b)
equal_iff a b = ground arith

abbrev number_keys : KeyEq ℕ
number_keys = record { beq = ◌==◌; beq_iff = equal_iff }

-- The keys 2 and 21 share a bucket of 19.
abbrev client : List (TableCall ℕ ℕ)
client = adds 2 10 ∷ adds 21 20 ∷ adds 21 22 ∷ asks 21 98 ∷ removes 2 ∷ asks 2 99 ∷ asks 21 97 ∷ []

answers : run number_keys (λ k. k) 19 client (λ i. []) ≡ some (22 ∷ 99 ∷ 22 ∷ [])
unfolding run
answers = refl

run_refines_table_example :
    run number_keys (λ k. k) 19 client (λ i. [])
    ≡ some (with_defaults (defaults client) (map_run number_keys (map plain client) (λ k. none)))
run_refines_table_example = run_refines_table number_keys (λ k. k) 19 client (omega arith)
