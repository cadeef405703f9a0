-- ===== src/Task/Awaiting.antt =====
-- The transfers of task.hpp against bodies in which a co_await is a call.
use emb_linux.Prelude.{ℕ, update}
use emb_linux.Task.{Body, at_body, Machine}

module _ {ℓ} {V E : Type ℓ} (bad_alloc : E) where
  -- The state of a body whose `co_await` found no free block.
  abbrev refused : ℕ → Body V E → Machine V E → Machine V E
  refused h body s = record s {
    frames = update s.frames h (record (s.frames h) { place = at_body body });
  }
