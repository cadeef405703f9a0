-- ===== src/Generator.antt =====
-- modern_cpp_core/coroutines/generator.hpp: a coroutine that yields values, and the iterator that
-- drives it. What the compiler makes of the coroutine's body is a list of the values that it will
-- yield and how it will end. A handle is null or that of the one frame.
pub mod Drain
mod Tests
use emb_linux.Prelude.{ℕ, zero, suc, List, [], ◌∷◌, ◌++◌, Bool, true, false, Option, none, some}

-- The rest of a body, up to its `co_return` or the exception that leaves it.
pub data Body {ℓ κ} (T : Type ℓ) (E : Type κ) : Type (ℓ ⊔ κ) where
  yields : T → Body T E → Body T E
  returns : Body T E
  throws : E → Body T E

-- The frame: `promise_type`, the rest of the body, and whether it stands at its final suspension.
pub record Frame {ℓ κ} (T : Type ℓ) (E : Type κ) : Type (ℓ ⊔ κ) where
  pub body : Body T E
  pub is_done : Bool
  pub current_value : Option T
  pub exception : Option E

-- An answer, an exception, or undefined behaviour.
pub data Outcome {ℓ κ} (R : Type ℓ) (E : Type κ) : Type (ℓ ⊔ κ) where
  gives : R → Outcome R E
  rethrows : E → Outcome R E
  undefined : Outcome R E

module _ {ℓ κ} {T : Type ℓ} {E : Type κ} where
  -- The coroutine as `get_return_object` leaves it, at its initial suspension.
  abbrev pub start : Body T E → Frame T E
  start body = record { body = body; is_done = false; current_value = none; exception = none }

  -- `resume`, with `yield_value` or `unhandled_exception` at the next suspension.
  pub run_body : Body T E → Frame T E → Frame T E
  run_body (yields value rest) f = record f { body = rest; current_value = some value }
  run_body returns f = record f { is_done = true }
  run_body (throws e) f = record f { is_done = true; exception = some e }

  -- The tests after a `resume`: the handle that is left, or the exception.
  pub after_resume : Bool → Option E → Frame T E → Outcome (Bool × Frame T E) E
  after_resume false exception f = gives (true, f)
  after_resume true (some e) f = rethrows e
  after_resume true none f = gives (false, f)

  -- `begin` and `operator++`; the Boolean tells whether the handle is not null. To resume a
  -- coroutine at its final suspension is undefined.
  pub resume_checked : Bool → Frame T E → Outcome (Bool × Frame T E) E
  unfolding run_body after_resume
  resume_checked true f = undefined
  resume_checked false f = let g = run_body f.body f in after_resume g.is_done g.exception g

  pub begin : Bool → Frame T E → Outcome (Bool × Frame T E) E
  unfolding resume_checked
  begin false f = gives (false, f)
  begin true f = resume_checked f.is_done f

  pub increment : Bool → Frame T E → Outcome (Bool × Frame T E) E
  unfolding resume_checked
  increment false f = gives (false, f)
  increment true f = resume_checked f.is_done f

  -- `operator*`: of a null iterator, or of one with no value, it is undefined.
  pub dereference : Bool → Option T → Outcome T E
  dereference false value = undefined
  dereference true none = undefined
  dereference true (some value) = gives value

-- How a range-for over the generator ends: with the values that it took, and the exception that
-- left the loop, if one did.
pub data Ending {ℓ κ} (T : Type ℓ) (E : Type κ) : Type (ℓ ⊔ κ) where
  finished : List T → Ending T E
  thrown : List T → E → Ending T E
  broken : Ending T E

module _ {ℓ κ} {T : Type ℓ} {E : Type κ} where
  abbrev pub before : T → Ending T E → Ending T E
  before x (finished xs) = finished (x ∷ xs)
  before x (thrown xs e) = thrown (x ∷ xs) e
  before x broken = broken

  -- The loop from the test against `end` on, with fuel.
  pub loop : ℕ → Outcome (Bool × Frame T E) E → Ending T E
  unfolding dereference increment
  loop zero at = broken
  loop (suc fuel) (rethrows e) = thrown [] e
  loop (suc fuel) undefined = broken
  loop (suc fuel) (gives (false, f)) = finished []
  loop (suc fuel) (gives (true, f)) = elim (dereference {E = E} true f.current_value) [
    | gives value ↦ before value (loop fuel (increment true f))
    | rethrows e ↦ thrown [] e
    | undefined ↦ broken
  ]

  pub range_for : ℕ → Frame T E → Ending T E
  unfolding loop begin
  range_for fuel f = loop fuel (begin true f)
