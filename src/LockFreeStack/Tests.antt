-- ===== src/LockFreeStack/Tests.antt =====
-- Runs of lock_free_stack.hpp, and its theorems at concrete inputs.
use emb_linux.Prelude.{ℕ, ◌≡◌, refl, List, [], ◌∷◌, true, false, none, some, arith}
use emb_linux.LockFreeStack.{Stack, null_index, new, push, pop}
use emb_linux.LockFreeStack.Refine.{
  Represents, Op, pushes, pops, pushed, popped, run, stack_run, run_refines_stack,
}
use emb_linux.LockFreeStack.New.{new_refines_stack}

abbrev script : List (Op ℕ)
script = pushes 5 ∷ pushes 6 ∷ pushes 7 ∷ pops ∷ pops ∷ pops ∷ []

script_runs :
    run 2 script (new 2)
    ≡ pushed true
      ∷ pushed true
      ∷ pushed false
      ∷ popped (some 6)
      ∷ popped (some 5)
      ∷ popped none
      ∷ []
unfolding run push pop new
script_runs = refl

-- Node 1 holds 8, and node 0 is free.
abbrev holds_eight : Stack ℕ
holds_eight = record {
  content = λ i. some 8;
  next = λ i. null_index;
  head = record { index = 1; tag = 3 };
  free_head = record { index = 0; tag = 9 };
}

eight : Represents 2 holds_eight (8 ∷ [])
eight = (
  1 ∷ [],
  0 ∷ [],
  record {
    stack = (refl, (λ e. omega arith), refl);
    spare = (refl, (λ e. omega arith), refl);
    used_once = (tt, tt);
    free_once = (tt, tt);
    apart = (((λ e. omega arith), tt), tt);
    values = refl;
    total = refl;
  },
)

run_refines_stack_example : run 2 script holds_eight ≡ stack_run 2 script (8 ∷ [])
run_refines_stack_example = run_refines_stack 2 script holds_eight (8 ∷ []) eight

new_refines_stack_example : run 2 script (new 2) ≡ stack_run 2 script []
new_refines_stack_example = new_refines_stack 1 script (omega arith)
