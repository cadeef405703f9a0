-- ===== src/Prelude/Modular.antt =====
-- Remainders of numbers below twice the modulus, for indices that go round an array.
use Prim.Native.Nat.{ℕ, suc, ◌+◌, ◌-◌, ◌%◌, ◌≤◌, ◌<◌}
use mathlib.Core.Path.{◌≡◌, ◌∙◌}
use mathlib.Core.Logic.{◌≢◌, ◌⊎◌, inl, inr}
use native.Mathlib.Nat.{mod-eq_of_lt, mod-eq-sub-mod}
use native.Mathlib.Decide.{dec_lt}
use native.Mathlib.Omega.{arith}

-- One turn at most: the remainder is the number, or the number less the modulus.
pub mod_once : (a n : ℕ) → a < n + n → ((a < n) × (a % n ≡ a)) ⊎ ((n ≤ a) × (a % n ≡ a - n))
mod_once a n h = elim (dec_lt a n) [
  | yes p ↦ inl (p, mod-eq_of_lt p)
  | no p ↦ inr (
    omega arith,
    mod-eq-sub-mod {n = a} {m = n} (omega arith) ∙ mod-eq_of_lt {n = a - n} {m = n} (omega arith),
  )
]

-- Fewer steps than the modulus do not lead back to the start.
pub add-mod-ne_start : (h k n : ℕ) → h < n → 0 < k → k < n → (h + k) % n ≢ h
add-mod-ne_start h k n a b c = omega (arith, mod_once (h + k) n)

-- A step first, or a step last.
pub add-mod-shift : (h k n : ℕ) → h < n → k + 1 < n → ((h + 1) % n + k) % n ≡ (h + suc k) % n
add-mod-shift h k n a b =
    omega (arith, mod_once (h + 1) n, mod_once ((h + 1) % n + k) n, mod_once (h + suc k) n)

pub add-mod-next : (h k n : ℕ) → h < n → k < n → ((h + k) % n + 1) % n ≡ (h + suc k) % n
add-mod-next h k n a b =
    omega (arith, mod_once (h + k) n, mod_once ((h + k) % n + 1) n, mod_once (h + suc k) n)
