-- ===== src/Prelude/Sums.antt =====
-- Sums over the first indices of an array, and counts of the elements of a list.
use Prim.Native.Nat.{ℕ, zero, suc, ◌+◌, ◌≤◌, ◌<◌}
use mathlib.Core.Path.{◌≡◌, refl, ap}
use mathlib.Core.Logic.{◌≢◌}
use mathlib.Core.Bool.{Bool}
use mathlib.Core.List.{List, [], ◌∷◌, ◌++◌}
use native.Mathlib.Decide.{dec_lt}
use native.Mathlib.Omega.{arith}
use emb_linux.Prelude.Tests.{bit}

-- The sum of `f` below `n`.
abbrev pub sum : (ℕ → ℕ) → ℕ → ℕ
sum f zero = 0
sum f (suc n) = sum f n + f n

pub sum-eq : (f g : ℕ → ℕ) (n : ℕ) → ((i : ℕ) → i < n → f i ≡ g i) → sum f n ≡ sum g n
sum-eq f g zero h = refl
sum-eq f g (suc n) h = omega (arith, sum-eq f g n (λ i a. h i (omega arith)), h n (omega arith))

pub sum_zero : (f : ℕ → ℕ) (n : ℕ) → ((i : ℕ) → i < n → f i ≡ 0) → sum f n ≡ 0
sum_zero f zero h = refl
sum_zero f (suc n) h = omega (arith, sum_zero f n (λ i a. h i (omega arith)), h n (omega arith))

-- Two arrays that agree at every index but `i` have sums that differ as they do there.
pub sum_change :
    (f g : ℕ → ℕ) (i n : ℕ) → i < n → ((j : ℕ) → j ≢ i → f j ≡ g j) → sum f n + g i ≡ sum g n + f i
sum_change f g i zero a h = absurd (omega arith)
sum_change f g i (suc n) a h = elim (dec_lt i n) [
  | yes p ↦ omega (arith, sum_change f g i n p h, h n (λ e. omega arith))
  | no p ↦
      let e : i ≡ n = omega arith in
      omega (arith, sum-eq f g n (λ j b. h j (λ k. omega arith)), ap f e, ap g e)
]

-- A member is at most the sum.
pub sum_member : (f : ℕ → ℕ) (i n : ℕ) → i < n → f i ≤ sum f n
sum_member f i zero a = absurd (omega arith)
sum_member f i (suc n) a = elim (dec_lt i n) [
  | yes p ↦ omega (arith, sum_member f i n p)
  | no p ↦ let e : i ≡ n = omega arith in omega (arith, ap f e)
]

-- A positive sum has a positive member.
pub sum_positive : (f : ℕ → ℕ) (n : ℕ) → 0 < sum f n → (i : ℕ) × (i < n) × (0 < f i)
sum_positive f zero h = absurd (omega arith)
sum_positive f (suc n) h = elim (dec_lt 0 (f n)) [
  | yes p ↦ (n, omega arith, p)
  | no p ↦ let (i, a, b) = sum_positive f n (omega arith) in (i, omega arith, b)
]

-- How many elements of a list pass a test.
abbrev pub count {ℓ} : {A : Type ℓ} → (A → Bool) → List A → ℕ
count p [] = 0
count p (x ∷ xs) = bit (p x) + count p xs

pub count-append {ℓ} :
    {A : Type ℓ} (p : A → Bool) (xs ys : List A) → count p (xs ++ ys) ≡ count p xs + count p ys
count-append p [] ys = omega arith
count-append p (x ∷ xs) ys = omega (arith, count-append p xs ys)
