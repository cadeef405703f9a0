-- ===== src/Task.antt =====
-- modern_cpp_core/coroutines/task.hpp: lazy tasks that await one another by symmetric transfer. What
-- the compiler makes of a body is a tree: it returns, an exception leaves it, or it awaits a task and
-- goes on with what `await_resume` gives or throws, or with what its allocation throws. Frames are numbered
-- in the order of their allocation. `Task<void>` is the case of a value type with one value.
-- CoroutinePoolAllocator is seen by the number of its free blocks: an allocation takes one or throws
-- std::bad_alloc when there is none, as it is before init. Every frame fits a block, and no other thread
-- takes or returns blocks meanwhile.
pub mod Transfer
pub mod Awaiting
mod Tests
use emb_linux.Prelude.{
  refl, ◌≡◌, ℕ, suc, Option, none, some, Bool, true, false, if◌then◌else◌, update,
}

pub data Answer {ℓ} (V E : Type ℓ) : Type ℓ where
  value : V → Answer V E
  exception : E → Answer V E

pub data Body {ℓ} (V E : Type ℓ) : Type ℓ where
  returns : V → Body V E
  throws : E → Body V E
  awaits : Body V E → (Answer V E → Body V E) → Body V E

-- Where the coroutine of a frame stands: in its body, at a `co_await` of the task with this handle,
-- at its final suspension, or destroyed with its `Task`.
pub data Place {ℓ} (V E : Type ℓ) : Type ℓ where
  at_body : Body V E → Place V E
  suspended : (child : ℕ) → (Answer V E → Body V E) → Place V E
  final : Place V E
  destroyed : Place V E

-- `promise_type`, and the place of its coroutine.
pub record Frame {ℓ} (V E : Type ℓ) : Type ℓ where
  pub m_value : Option V
  pub m_exception : Option E
  pub m_continuation : Option ℕ
  pub place : Place V E

-- The frames, the free blocks of the pool, and the coroutine that runs; none is the caller of `resume`.
pub record Machine {ℓ} (V E : Type ℓ) : Type ℓ where
  pub frames : ℕ → Frame V E
  pub next_frame : ℕ
  pub free_blocks : ℕ
  pub current : Option ℕ

module _ {ℓ} {V E : Type ℓ} where
  -- `get_return_object`, at the initial suspension.
  abbrev pub new_frame : Body V E → Frame V E
  new_frame body = record {
    m_value = none;
    m_exception = none;
    m_continuation = none;
    place = at_body body;
  }

  abbrev pub set_frame : ℕ → Frame V E → Machine V E → Machine V E
  set_frame h f s = record s { frames = update s.frames h f }

  -- `await_resume`: the exception if there is one, else the value. `none` is a value never set.
  pub await_resume : Option E → Option V → Option (Answer V E)
  await_resume (some e) v = some (exception e)
  await_resume none (some v) = some (value v)
  await_resume none none = none

  -- A `co_await` of a new task, by the free blocks: without one `operator new` throws in the body. With one
  -- the frame is allocated, the task is not done, and `await_suspend` records the continuation and
  -- transfers to it. The exception std::bad_alloc is a parameter.
  pub await_new : E → ℕ → Body V E → (Answer V E → Body V E) → ℕ → Machine V E → Machine V E
  await_new bad_alloc h child rest ℕ.zero s =
      set_frame h (record (s.frames h) { place = at_body (rest (exception bad_alloc)) }) s
  await_new bad_alloc h child rest (suc blocks) s = record {
    frames =
        update (update s.frames s.next_frame (record (new_frame child) { m_continuation = some h }))
          h (record (s.frames h) { place = suspended s.next_frame rest });
    next_frame = suc s.next_frame;
    free_blocks = blocks;
    current = some s.next_frame;
  }

  -- `final_suspend`: `FinalAwaiter` transfers to the continuation, or to no coroutine.
  pub finish_task : ℕ → Frame V E → Machine V E → Machine V E
  finish_task h f s = record s {
    frames = update s.frames h (record f { place = final });
    current = f.m_continuation;
  }

  -- The awaiting coroutine goes on with this answer, and the awaited task is destroyed, its block free.
  pub go_on :
      ℕ → ℕ → (Answer V E → Body V E) → Option (Answer V E) → Machine V E → Option (Machine V E)
  go_on h child rest none s = none
  go_on h child rest (some a) s = some (record s {
    frames =
        update (update s.frames child (record (s.frames child) { place = destroyed })) h
          (record (s.frames h) { place = at_body (rest a) });
    free_blocks = suc s.free_blocks;
  })

  -- The coroutine `h` runs to its next transfer. `none` is undefined: a coroutine that is done or
  -- destroyed is resumed.
  pub run_frame : E → ℕ → Place V E → Machine V E → Option (Machine V E)
  unfolding await_new finish_task go_on await_resume
  run_frame bad_alloc h (at_body (returns v)) s =
      some (finish_task h (record (s.frames h) { m_value = some v }) s)
  run_frame bad_alloc h (at_body (throws e)) s =
      some (finish_task h (record (s.frames h) { m_exception = some e }) s)
  run_frame bad_alloc h (at_body (awaits child rest)) s =
      some (await_new bad_alloc h child rest s.free_blocks s)
  run_frame bad_alloc h (suspended child rest) s =
      go_on h child rest (await_resume (s.frames child).m_exception (s.frames child).m_value) s
  run_frame bad_alloc h final s = none
  run_frame bad_alloc h destroyed s = none

  pub step : E → Option ℕ → Machine V E → Option (Machine V E)
  unfolding run_frame
  step bad_alloc none s = some s
  step bad_alloc (some h) s = run_frame bad_alloc h (s.frames h).place s

  pub run : E → ℕ → Machine V E → Option (Machine V E)
  unfolding step
  run bad_alloc ℕ.zero s = some s
  run bad_alloc (suc n) s = elim (step bad_alloc s.current s) [
    | none ↦ none
    | some t ↦ run bad_alloc n t
  ]

-- The specialization for `void`: `return_void` stores nothing, so that the value is the only one.
abbrev pub VoidFrame : Type 0 → Type 0
VoidFrame E = Frame (Unit {0}) E

pub await_resume_void : {E : Type 0} → Option E → Answer (Unit {0}) E
await_resume_void (some e) = exception e
await_resume_void none = value tt

-- At the final suspension of a void task the general `await_resume` answers the same.
await_resume-void :
    {E : Type 0} (e : Option E) → await_resume e (some tt) ≡ some (await_resume_void e)
unfolding await_resume await_resume_void
await_resume-void (some e) = refl
await_resume-void none = refl
