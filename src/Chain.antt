-- ===== src/Chain.antt =====
-- Linked lists whose links stand in an array: the free lists and the stacks of lock_free_stack.hpp,
-- coroutine_pool.cpp and treiberStack.cpp.
use emb_linux.Prelude.{ℕ, ◌≡◌, ◌≢◌, refl, sym, ap, subst, List, [], ◌∷◌, update, update_ne}

-- From `i`, the links lead through these nodes to the null link.
abbrev pub Chain : ℕ → (ℕ → ℕ) → ℕ → List ℕ → Type 0
Chain null next i [] = i ≡ null
Chain null next i (j ∷ js) = (i ≡ j) × (j ≢ null) × Chain null next (next j) js

abbrev pub NotIn : ℕ → List ℕ → Type 0
NotIn j [] = Unit
NotIn j (x ∷ xs) = (j ≢ x) × NotIn j xs

abbrev pub Distinct : List ℕ → Type 0
Distinct [] = Unit
Distinct (x ∷ xs) = NotIn x xs × Distinct xs

-- No node of the first list is in the second.
abbrev pub Apart : List ℕ → List ℕ → Type 0
Apart [] ys = Unit
Apart (x ∷ xs) ys = NotIn x ys × Apart xs ys

-- A link written outside a chain leaves it as it was.
pub Chain-update :
    (null : ℕ) (next : ℕ → ℕ) (j v i : ℕ) (xs : List ℕ)
    → NotIn j xs
    → Chain null next i xs
    → Chain null (update next j v) i xs
Chain-update null next j v i [] h c = c
Chain-update null next j v i (x ∷ xs) h c = (
  c.0,
  c.1,
  Chain-update null (next) j v (update next j v x) xs h.1
      (subst (λ k. Chain null next k xs) (sym (update_ne next j x v h.0)) c.2),
)

-- A chain that does not start at the null link has a first node.
pub Chain-first :
    (null : ℕ) (next : ℕ → ℕ) (i : ℕ) (xs : List ℕ)
    → i ≢ null
    → Chain null next i xs
    → (js : List ℕ) × (xs ≡ i ∷ js)
Chain-first null next i [] ne c = absurd (ne c)
Chain-first null next i (x ∷ xs) ne c = (xs, ap (λ k. k ∷ xs) (sym c.0))

pub Chain-null : (null : ℕ) (next : ℕ → ℕ) (xs : List ℕ) → Chain null next null xs → xs ≡ []
Chain-null null next [] c = refl
Chain-null null next (x ∷ xs) c = absurd (c.1 (sym c.0))

pub Apart-cons : (xs ys : List ℕ) (j : ℕ) → NotIn j xs → Apart xs ys → Apart xs (j ∷ ys)
Apart-cons [] ys j h a = tt
Apart-cons (x ∷ xs) ys j h a = (((λ e. h.0 (sym e)), a.0), Apart-cons xs ys j h.1 a.1)

pub Apart-tail : (xs ys : List ℕ) (j : ℕ) → Apart xs (j ∷ ys) → Apart xs ys
Apart-tail [] ys j a = tt
Apart-tail (x ∷ xs) ys j a = (a.0.1, Apart-tail xs ys j a.1)

pub Apart-NotIn : (xs ys : List ℕ) (j : ℕ) → Apart xs (j ∷ ys) → NotIn j xs
Apart-NotIn [] ys j a = tt
Apart-NotIn (x ∷ xs) ys j a = ((λ e. a.0.0 (sym e)), Apart-NotIn xs ys j a.1)
