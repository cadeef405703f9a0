-- ===== src/SingleMutexQueue/Notify.antt =====
-- What a notification of the condition variable does to the waiting threads.
use native.Mathlib.Decide.{dec_lt}
use emb_linux.Prelude.{
  sum_member, ◌&&◌, true-ne_false, ℕ, zero, suc, ◌+◌, ◌≤◌, ◌<◌, ◌≡◌, refl, sym, ap, ◌∙◌, true,
  false, update, update_ne, update_self, ltb, arith, sum, sum_change, Bool-cases, inl, inr,
}
use emb_linux.SingleMutexQueue.{Phase, outside, waiting, awake, is_waiting, notify_any, notify_one}

abbrev pub waits : Phase → ℕ
waits waiting = 1
waits outside = 0
waits awake = 0

abbrev pub woken : Phase → ℕ
woken awake = 1
woken outside = 0
woken waiting = 0

-- How many of the threads wait, and how many were notified and have not had the mutex since.
abbrev pub all_waiting : ℕ → (ℕ → Phase) → ℕ
all_waiting threads f = sum (λ t. waits (f t)) threads

abbrev pub all_woken : ℕ → (ℕ → Phase) → ℕ
all_woken threads f = sum (λ t. woken (f t)) threads

-- A measure of the phases after one of them has changed.
pub sum-update :
    (m : Phase → ℕ) (f : ℕ → Phase) (t : ℕ) (p : Phase) (n : ℕ)
    → t < n
    → sum (λ i. m (f i)) n + m p ≡ sum (λ i. m (update f t p i)) n + m (f t)
sum-update m f t p n a = omega (
  arith,
  sum_change (λ i. m (f i)) (λ i. m (update f t p i)) t n a
      (λ j ne. ap m (sym (update_ne f t j p (λ k. ne (sym k))))),
  ap m (update_self f t p),
)

-- A notification wakes one of the threads below `n`, or none below `k` waits and nothing changes.
pub data Notified (n k : ℕ) (f g : ℕ → Phase) : Type 0 where
  wakes_one : 0 < all_waiting n f → all_woken n g ≡ suc (all_woken n f) → Notified n k f g
  none_waits : ((i : ℕ) → i < k → waits (f i) ≡ 0) → g ≡ f → Notified n k f g

wakes_it :
    (n k t : ℕ) (f : ℕ → Phase)
    → t < n
    → is_waiting (f t) ≡ true
    → Notified n k f (update f t awake)
wakes_it n k t f a e =
    wakes_one (omega (arith, sum_member (λ i. waits (f i)) t n a, (is_waiting-counts (f t) e).0))
      (omega (arith, sum-update woken f t awake n a, (is_waiting-counts (f t) e).1))
  where
    is_waiting-counts : (p : Phase) → is_waiting p ≡ true → (waits p ≡ 1) × (woken p ≡ 0)
    is_waiting-counts outside e = absurd (true-ne_false (sym e))
    is_waiting-counts waiting e = (refl, refl)
    is_waiting-counts awake e = absurd (true-ne_false (sym e))

no_wait : (p : Phase) → is_waiting p ≡ false → waits p ≡ 0
no_wait outside e = refl
no_wait waiting e = absurd (true-ne_false e)
no_wait awake e = refl

notify_any-Notified : (n k : ℕ) (f : ℕ → Phase) → k ≤ n → Notified n k f (notify_any k f)
unfolding notify_any
notify_any-Notified n zero f a = none_waits (λ i b. absurd (omega arith)) refl
notify_any-Notified n (suc k) f a = elim (Bool-cases (is_waiting (f k))) [
  | inl e ↦ rw e (wakes_it n (suc k) k f (omega arith) e)
  | inr e ↦ rw e (grows (notify_any-Notified n k f (omega arith)) e)
]
  where
    below :
        (i : ℕ)
        → ((j : ℕ) → j < k → waits (f j) ≡ 0)
        → is_waiting (f k) ≡ false
        → i < suc k
        → waits (f i) ≡ 0
    below i h e b = elim (dec_lt i k) [
      | yes c ↦ h i c
      | no c ↦ let same : i ≡ k = omega arith in ap (λ j. waits (f j)) same ∙ no_wait (f k) e
    ]

    grows : {g : ℕ → Phase} → Notified n k f g → is_waiting (f k) ≡ false → Notified n (suc k) f g
    grows (wakes_one some_wait h) e = wakes_one some_wait h
    grows (none_waits h same) e = none_waits (λ i b. below i h e b) same

pub notify_one-Notified : (n w : ℕ) (f : ℕ → Phase) → Notified n n f (notify_one n w f)
unfolding notify_one
notify_one-Notified n w f = elim (Bool-cases (ltb w n && is_waiting (f w))) [
  | inl e ↦ rw e (wakes_it n n w f (ground arith) (ground arith))
  | inr e ↦ rw e (notify_any-Notified n n f (omega arith))
]
