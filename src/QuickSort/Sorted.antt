-- ===== src/QuickSort/Sorted.antt =====
-- Lists in order, by counting: no later element is less than an earlier one.
use emb_linux.Prelude.{
  ◌≤◌, ◌≡◌, sym, ap, ◌∙◌, List, [], ◌∷◌, ◌++◌, Bool, true, false, not, arith, count, count-append,
  Bool-cases, inl, inr, true-ne_false, bit,
}

module _ {ℓ} {T : Type ℓ} (less : T → T → Bool) where
  abbrev pub IsSorted : List T → Type 0
  IsSorted [] = Unit
  IsSorted (x ∷ xs) = (count (λ y. less y x) xs ≡ 0) × IsSorted xs

  -- What `operator<` has to be.
  pub record IsStrict : Type ℓ where
    pub irreflexive : (a : T) → less a a ≡ false
    pub transitive : (a b c : T) → less a b ≡ true → less b c ≡ true → less a c ≡ true

-- A test that is stronger passes fewer elements.
pub count-le {ℓ} :
    {T : Type ℓ} (p q : T → Bool) (xs : List T)
    → ((x : T) → p x ≡ true → q x ≡ true)
    → count p xs ≤ count q xs
count-le p q [] h = omega arith
count-le p q (x ∷ xs) h = elim (Bool-cases (p x)) [
  | inl e ↦ omega (arith, count-le p q xs h, ap bit e, ap bit (h x e))
  | inr e ↦ omega (arith, count-le p q xs h, ap bit e)
]

module _ {ℓ} {T : Type ℓ} (less : T → T → Bool) (o : IsStrict less) where
  -- Sorted elements below the pivot, the pivot, and sorted elements not below it are sorted.
  pub append-IsSorted :
      (p : T) (xs ys : List T)
      → IsSorted less xs
      → IsSorted less ys
      → count (λ x. not (less x p)) xs ≡ 0
      → count (λ y. less y p) ys ≡ 0
      → IsSorted less (xs ++ (p ∷ ys))
  append-IsSorted p [] ys a b c d = (d, b)
  append-IsSorted p (x ∷ xs) ys a b c d = elim (Bool-cases (less x p)) [
    | inr e ↦ absurd (omega (arith, c, ap (λ t. bit (not t)) e))
    | inl e ↦ elim (Bool-cases (less p x)) [
      | inl f ↦ absurd (true-ne_false (sym (o.transitive p x p f e) ∙ o.irreflexive p))
      | inr f ↦ (
        omega (
          arith,
          a.0,
          d,
          count-append (λ y. less y x) xs (p ∷ ys),
          ap bit f,
          count-le (λ y. less y x) (λ y. less y p) ys (λ y g. o.transitive y x p g e),
        ),
        append-IsSorted p xs ys a.1 b (omega (arith, c)) d,
      )
    ]
  ]
