-- ===== src/ThreadSafeHashMap/Tests.antt =====
-- Runs of thread_safe_hash_map.hpp, and its theorem at a concrete input.
use emb_linux.Prelude.{ℕ, ◌≡◌, refl, List, [], ◌∷◌, none, some, ◌==◌, ◌↔◌, true, arith}
use emb_linux.Table.{KeyEq, Call, puts, gets, drops, map_run}
use emb_linux.ThreadSafeHashMap.{run}
use emb_linux.ThreadSafeHashMap.Laws.{run_refines_map}

same_iff : (a b : ℕ) → ((a == b) ≡ true) ↔ (a ≡ b)
same_iff a b = ground arith

abbrev nat_keys : KeyEq ℕ
nat_keys = record { beq = ◌==◌; beq_iff = same_iff }

-- The keys 3 and 34 share a bucket of 31.
abbrev calls : List (Call ℕ ℕ)
calls = puts 3 10 ∷ puts 34 20 ∷ puts 3 11 ∷ gets 3 ∷ drops 3 ∷ gets 3 ∷ gets 34 ∷ []

replies : run nat_keys (λ k. k) 31 calls (λ i. []) ≡ some (some 11 ∷ none ∷ some 20 ∷ [])
unfolding run
replies = refl

run_refines_map_example :
    run nat_keys (λ k. k) 31 calls (λ i. []) ≡ some (map_run nat_keys calls (λ k. none))
run_refines_map_example = run_refines_map nat_keys (λ k. k) 31 calls (omega arith)
