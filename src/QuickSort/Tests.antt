-- ===== src/QuickSort/Tests.antt =====
-- A run of quickSort.hpp, and its theorem at a concrete input.
use emb_linux.Prelude.{
  ℕ, ◌+◌, ◌≡◌, refl, List, [], ◌∷◌, Bool, true, false, not, some, arith, ltb, count, if◌then◌else◌,
  ap, ltb→lt, lt→ltb,
}
use emb_linux.QuickSort.{parallel_quick_sort}
use emb_linux.QuickSort.Sorted.{IsSorted, IsStrict}
use emb_linux.QuickSort.Sorts.{IsPartition, parallel_quick_sort_sorts}

-- A partition that keeps the order.
abbrev passing : (ℕ → Bool) → List ℕ → List ℕ
passing p [] = []
passing p (x ∷ xs) = if p x then x ∷ passing p xs else passing p xs

abbrev stable : (ℕ → Bool) → List ℕ → List ℕ × List ℕ
stable p xs = (passing p xs, passing (λ x. not (p x)) xs)

count-passing :
    (p q : ℕ → Bool) (xs : List ℕ)
    → count q (passing p xs) + count q (passing (λ x. not (p x)) xs) ≡ count q xs
count-passing p q [] = omega arith
count-passing p q (x ∷ xs) = ground (arith, count-passing p q xs)

passing_none :
    (p q : ℕ → Bool) (xs : List ℕ)
    → ((x : ℕ) → p x ≡ true → q x ≡ false)
    → count q (passing p xs) ≡ 0
passing_none p q [] h = refl
passing_none p q (x ∷ xs) h = ground (arith, passing_none p q xs h, h x)

stable-IsPartition : IsPartition stable
stable-IsPartition = record {
  same = count-passing;
  first_pass = λ p xs. passing_none p (λ x. not (p x)) xs (λ x e. ap not e);
  others_fail = λ p xs. passing_none (λ x. not (p x)) p xs (λ x e. ground (arith));
}

ltb-IsStrict : IsStrict ltb
ltb-IsStrict = record {
  irreflexive = λ a. ground arith;
  transitive = λ a b c e f. lt→ltb a c (omega (arith, ltb→lt a b e, ltb→lt b c f));
}

abbrev five : List ℕ
five = 3 ∷ 1 ∷ 4 ∷ 1 ∷ 2 ∷ []

five_sorts : parallel_quick_sort ltb stable 11 five ≡ some (1 ∷ 1 ∷ 2 ∷ 3 ∷ 4 ∷ [])
unfolding parallel_quick_sort
five_sorts = refl

parallel_quick_sort_sorts_example :
    (ys : List ℕ) × (parallel_quick_sort ltb stable 11 five ≡ some ys)
    × IsSorted ltb ys
    × ((q : ℕ → Bool) → count q ys ≡ count q five)
parallel_quick_sort_sorts_example =
    parallel_quick_sort_sorts ltb stable ltb-IsStrict stable-IsPartition five
