-- ===== src/FixedTask/Tests.antt =====
-- A program of FixedTask objects, and witnesses.
use emb_linux.Prelude.{◌>>=◌, ℕ, ◌≡◌, refl, List, [], ◌∷◌, Option, none, some, arith}
use emb_linux.FixedTask.{
  Tasks, Call, constructs, constructs_from, move_constructs, move_assigns, destructs, invokes,
  no_tasks, move_assign, run,
}
use emb_linux.FixedTask.Ownership.{Holds}
use emb_linux.FixedTask.Programs.{plan, run-Holds, move-round_trip}

abbrev program : List (Call ℕ)
program =
    constructs 0
    ∷ constructs_from 1 7
    ∷ move_assigns 0 1
    ∷ invokes 0
    ∷ invokes 1
    ∷ constructs_from 2 8
    ∷ move_assigns 0 2
    ∷ move_constructs 3 0
    ∷ destructs 0
    ∷ invokes 3
    ∷ []

abbrev ran : Tasks ℕ → Option (List ℕ × ℕ × ℕ)
ran s = some (s.invoked, s.made, s.destroyed)

program-ran : (run 4 program no_tasks >>= ran) ≡ some (8 ∷ 7 ∷ [], 5, 4)
unfolding run
program-ran = refl

run-Holds_example :
    (s : Tasks ℕ) × (run 4 program no_tasks ≡ some s)
    × Holds 4 (plan 4 program ((λ i. none), [])).0 s
    × (s.invoked ≡ (plan 4 program ((λ i. none), [])).1)
run-Holds_example = run-Holds 4 program

-- Object 0 is empty, and object 1 holds 7.
abbrev two_objects : List (Call ℕ)
two_objects = constructs 0 ∷ constructs_from 1 7 ∷ []

move-round_trip_example :
    (s' : Tasks ℕ) × ((move_assign 0 1 (run-Holds 2 two_objects).0 >>= move_assign 1 0) ≡ some s')
    × (s'.storage 1 ≡ (run-Holds 2 two_objects).0.storage 1)
    × (s'.storage 0 ≡ none)
move-round_trip_example =
    move-round_trip 2 0 1 (some 7) none (plan 2 two_objects ((λ i. none), [])).0
      (run-Holds 2 two_objects).0 (λ e. omega (arith, e)) refl refl (run-Holds 2 two_objects).2
