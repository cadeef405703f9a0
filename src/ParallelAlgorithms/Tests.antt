-- ===== src/ParallelAlgorithms/Tests.antt =====
-- Runs of parallel_algorithms.hpp, and its theorems at concrete inputs.
use mathlib.Core.List.{Perm, Permᴰ}
use emb_linux.Prelude.{ℕ, ◌-◌, ◌^◌, ◌≡◌, refl, List, [], ◌∷◌, some, arith}
use emb_linux.ParallelAlgorithms.{for_each_tasks}
use emb_linux.ParallelAlgorithms.Chunks.{concat, for_each_skips}
use emb_linux.ParallelAlgorithms.Order.{for_each_any_order}

abbrev five : List ℕ
five = 1 ∷ 2 ∷ 3 ∷ 4 ∷ 5 ∷ []

five_tasks : for_each_tasks five 2 ≡ some ((1 ∷ 2 ∷ []) ∷ (3 ∷ 4 ∷ []) ∷ (5 ∷ []) ∷ [])
unfolding for_each_tasks
five_tasks = refl

for_each_skips_example : for_each_tasks five (2 ^ 64 - 1) ≡ some []
for_each_skips_example =
    for_each_skips five (2 ^ 64 - 1) (omega arith) (omega arith) (omega arith) (omega arith)

for_each_any_order_example : Perm (concat ((3 ∷ 4 ∷ []) ∷ (1 ∷ 2 ∷ []) ∷ (5 ∷ []) ∷ [])) five
for_each_any_order_example =
    for_each_any_order five 2 (omega arith) (omega arith) five_tasks (Permᴰ.swap refl refl)
