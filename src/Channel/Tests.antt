-- ===== src/Channel/Tests.antt =====
-- A run of channel.hpp, and its theorem at a concrete input.
use emb_linux.Prelude.{ℕ, ◌≡◌, List, [], ◌∷◌, some}
use emb_linux.Channel.{Channel, new, Await, sends, receives, run}
use emb_linux.Channel.Laws.{Inv, new-Inv, run_awaits-Inv}

-- Coroutine 9 waits for a value, and coroutine 3 for room.
abbrev script : List (Await ℕ)
script = receives 9 ∷ sends 1 5 ∷ sends 2 6 ∷ sends 3 7 ∷ receives 9 ∷ []

run_awaits-Inv_example : (d : Channel ℕ) × (run 1 script new ≡ some d) × Inv 1 d
run_awaits-Inv_example = run_awaits-Inv 1 script new (new-Inv 1)
