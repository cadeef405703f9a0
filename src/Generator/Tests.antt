-- ===== src/Generator/Tests.antt =====
-- A run of generator.hpp, and its theorem at a concrete input.
use emb_linux.Prelude.{ℕ, ◌≡◌, refl, [], ◌∷◌, arith}
use emb_linux.Generator.{Body, yields, throws, start, thrown, range_for}
use emb_linux.Generator.Drain.{plain, range_for-eq-plain}

abbrev two_then_throw : Body ℕ ℕ
two_then_throw = yields 4 (yields 5 (throws 9))

throws_after_two : range_for 3 (start two_then_throw) ≡ thrown (4 ∷ 5 ∷ []) 9
unfolding range_for
throws_after_two = refl

range_for-eq-plain_example : range_for 3 (start two_then_throw) ≡ plain two_then_throw
range_for-eq-plain_example = range_for-eq-plain 3 two_then_throw (omega arith)
