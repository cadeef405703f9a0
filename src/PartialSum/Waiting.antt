-- ===== src/PartialSum/Waiting.antt =====
-- The threads of the partial sum that wait at its barrier.
use emb_linux.Prelude.{
  ℕ, zero, suc, ◌+◌, ◌-◌, ◌%◌, ◌^◌, ◌≤◌, ◌<◌, ◌≡◌, refl, sym, Bool, true, false, inl, inr, eq-cases,
  leb, if◌then◌else◌, arith, sum, sum_change, update, update_self, update_ne, update_eq,
}
use emb_linux.PartialSum.{
  Phase, at_test, loading, arriving, resetting, advancing, spinning, returned,
}

abbrev pub waits : Phase → ℕ
waits (spinning g c) = 1
waits _ = 0

-- Where thread `i` may stand before the barrier has opened.
abbrev pub Fits : ℕ → Phase → Type 0
Fits i (at_test c) = c.stride ≡ 1
Fits i (loading c) = 1 ≤ i
Fits i (arriving g c) = (g ≡ 0) × (1 ≤ i)
Fits i (resetting c) = ⊥
Fits i (advancing c) = ⊥
Fits i (spinning g c) = (g ≡ 0) × (1 ≤ i)
Fits i returned = i ≡ 0

pub waits_small : (p : Phase) → waits p ≤ 1
waits_small (at_test c) = omega arith
waits_small (loading c) = omega arith
waits_small (arriving g c) = omega arith
waits_small (resetting c) = omega arith
waits_small (advancing c) = omega arith
waits_small (spinning g c) = omega arith
waits_small returned = omega arith

pub first-waits : (p : Phase) → Fits 0 p → waits p ≡ 0
first-waits (at_test c) h = refl
first-waits (loading c) h = refl
first-waits (arriving g c) h = refl
first-waits (resetting c) h = refl
first-waits (advancing c) h = refl
first-waits (spinning g c) h = absurd (omega (arith, h.1))
first-waits returned h = refl

pub sum_small : (f : ℕ → ℕ) (n : ℕ) → ((i : ℕ) → f i ≤ 1) → sum f n ≤ n
sum_small f zero h = omega arith
sum_small f (suc n) h = omega (arith, sum_small f n h, h n)

pub update_small : (f : ℕ → ℕ) (i : ℕ) → ((j : ℕ) → f j ≤ 1) → (j : ℕ) → update f i 1 j ≤ 1
update_small f i h j = elim (eq-cases i j) [
  | inl e ↦ omega (arith, update_eq f i j 1 e)
  | inr e ↦ omega (arith, update_ne f i j 1 e, h j)
]

-- Two of the threads do not wait.
pub sum_two_less :
    (f : ℕ → ℕ) (i n : ℕ)
    → ((j : ℕ) → f j ≤ 1)
    → f 0 ≡ 0
    → 1 ≤ i
    → i < n
    → f i ≡ 0
    → sum f n + 2 ≤ n
sum_two_less f i n h zero_first positive less zero_here =
    let g = update f 0 1 in
    omega (
      arith,
      sum_change f g 0 n (omega arith) (λ j e. sym (update_ne f 0 j 1 (λ k. e (sym k)))),
      sum_change g (update g i 1) i n less (λ j e. sym (update_ne g i j 1 (λ k. e (sym k)))),
      sum_small (update g i 1) n (update_small g i (update_small f 0 h)),
      update_self f 0 1,
      update_self g i 1,
      update_ne f 0 i 1 (λ e. omega (arith, e)),
      zero_first,
      zero_here,
    )

pub reaches : (a i : ℕ) → a ≡ 1 → leb a i ≡ true → 1 ≤ i
reaches a i e h = ground arith

pub misses : (a i : ℕ) → a ≡ 1 → leb a i ≡ false → i ≡ 0
misses a i e h = ground arith

pub wraps : (n : ℕ) → 2 ≤ n → n < 2 ^ 32 → (n + 2 ^ 32 - 1) % 2 ^ 32 ≡ n - 1
wraps n h l = omega arith

pub mod_small : (n : ℕ) → n < 2 ^ 32 → n % 2 ^ 32 ≡ n
mod_small n h = omega arith

pub if-keeps {ℓ ℓ'} :
    {A : Type ℓ} {B : Type ℓ'} (f : A → B) (k : B) (b : Bool) (x y : A)
    → f x ≡ k
    → f y ≡ k
    → f (if b then x else y) ≡ k
if-keeps f k true x y p q = p
if-keeps f k false x y p q = q
