-- ===== src/Task/Tests.antt =====
-- A run of task.hpp, and its theorem at a concrete input.
use emb_linux.Prelude.{ℕ, ◌+◌, ◌≡◌, refl, some}
use emb_linux.Task.{Answer, value, exception, Body, returns, throws, awaits, Machine, new_frame}
use emb_linux.Task.Transfer.{call}

abbrev handler : Answer ℕ ℕ → Body ℕ ℕ
handler (value v) = returns (v + 1)
handler (exception e) = returns (e + 100)

-- It awaits a task that throws, catches the exception, and returns.
abbrev catches : Body ℕ ℕ
catches = awaits (awaits (throws 7) (λ a. throws 8)) handler

-- A machine that is about to run it, with this number of free blocks.
abbrev started : ℕ → Machine ℕ ℕ
started blocks = record {
  frames = λ h. new_frame catches;
  next_frame = 1;
  free_blocks = blocks;
  current = some 0;
}

answers_108 : call 99 catches 2 ≡ value 108
answers_108 = refl

answers_none_free : call 99 catches 0 ≡ value 199
answers_none_free = refl
