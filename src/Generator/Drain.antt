-- ===== src/Generator/Drain.antt =====
-- A loop over the generator of generator.hpp, and what its body yields.
use emb_linux.Prelude.{ℕ, zero, suc, ◌≤◌, ◌≡◌, refl, ap, [], true, false, Option, none, some, arith}
use emb_linux.Generator.{
  Body, yields, returns, throws, start, increment, Ending, finished, thrown, before, loop,
  range_for,
}

module _ {ℓ κ} {T : Type ℓ} {E : Type κ} where
  -- What the body does, with no coroutine.
  abbrev pub plain : Body T E → Ending T E
  plain (yields x rest) = before x (plain rest)
  plain returns = finished []
  plain (throws e) = thrown [] e

  abbrev pub suspensions : Body T E → ℕ
  suspensions (yields x rest) = suc (suspensions rest)
  suspensions returns = 1
  suspensions (throws e) = 1

  drains :
      (fuel : ℕ) (body : Body T E) (current : Option T)
      → suspensions body ≤ fuel
      → loop fuel (
          increment true
            (record { body = body; is_done = false; current_value = current; exception = none }))
        ≡ plain body
  unfolding loop increment
  drains zero (yields x rest) current h = absurd (omega arith)
  drains zero returns current h = absurd (omega arith)
  drains zero (throws e) current h = absurd (omega arith)
  drains (suc fuel) (yields x rest) current h =
      ap (before x) (drains fuel rest (some x) (omega arith))
  drains (suc fuel) returns current h = refl
  drains (suc fuel) (throws e) current h = refl

  -- A range-for over a fresh generator ends, with fuel for each of its suspensions, and takes the
  -- values that the body yields, in order; an exception that leaves the body leaves the loop after
  -- these values, and nothing undefined happens.
  pub range_for-eq-plain :
      (fuel : ℕ) (body : Body T E)
      → suspensions body ≤ fuel
      → range_for fuel (start body) ≡ plain body
  unfolding range_for increment
  range_for-eq-plain fuel body h = drains fuel body none h
