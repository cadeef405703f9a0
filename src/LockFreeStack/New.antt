-- ===== src/LockFreeStack/New.antt =====
-- The constructor of lock_free_stack.hpp and its free list.
use emb_linux.Prelude.{
  ℕ, zero, suc, ◌+◌, ◌-◌, ◌≤◌, ◌<◌, ◌≡◌, refl, sym, ap, subst, ◌∙◌, inl, inr, List, [], ◌∷◌, arith,
  ◌==◌, Bool-cases, update, update_ne, update_eq, length,
}
use emb_linux.Chain.{Chain, NotIn, Distinct}
use emb_linux.LockFreeStack.{null_index, link_from, new}
use emb_linux.LockFreeStack.Refine.{Represents, Op, run, stack_run, run_refines_stack}

-- `n` numbers from `i` on.
abbrev upwards : ℕ → ℕ → List ℕ
upwards i zero = []
upwards i (suc n) = i ∷ upwards (suc i) n

link_from_below : (left i k : ℕ) (next : ℕ → ℕ) → k < i → link_from left i next k ≡ next k
unfolding link_from
link_from_below zero i k next h = refl
link_from_below (suc left) i k next h =
    link_from_below left (suc i) k (update next i (i + 1)) (omega arith)
    ∙ update_ne next i k (i + 1) (λ e. omega arith)

link_from_linked :
    (left i k : ℕ) (next : ℕ → ℕ) → i ≤ k → k < i + left → link_from left i next k ≡ k + 1
unfolding link_from
link_from_linked zero i k next h l = absurd (omega arith)
link_from_linked (suc left) i k next h l = elim (Bool-cases (i == k)) [
  | inl e ↦
      link_from_below left (suc i) k (update next i (i + 1)) (ground (arith, e))
      ∙ update_eq next i k (i + 1) (ground (arith, e))
      ∙ ground (arith, e)
  | inr e ↦
      link_from_linked left (suc i) k (update next i (i + 1)) (ground (arith, e)) (omega arith)
]

upwards-Chain :
    (null i n : ℕ) (next : ℕ → ℕ)
    → ((k : ℕ) → i ≤ k → k < i + n → next k ≡ k + 1)
    → next (i + n) ≡ null
    → i + n < null
    → Chain null next i (upwards i (suc n))
upwards-Chain null i zero next links last small =
    (refl, (λ e. omega arith), let e : i ≡ i + 0 = omega arith in ap next e ∙ last)
upwards-Chain null i (suc n) next links last small = (
  refl,
  (λ e. omega arith),
  subst (λ k. Chain null next k (upwards (suc i) (suc n)))
      (let e : suc i ≡ i + 1 = omega arith in e ∙ sym (links i (omega arith) (omega arith)))
      (upwards-Chain null (suc i) n next (λ k a b. links k (omega arith) (omega arith))
        (let e : suc i + n ≡ i + suc n = omega arith in ap next e ∙ last) (omega arith)),
)

NotIn-upwards : (j i n : ℕ) → j < i → NotIn j (upwards i n)
NotIn-upwards j i zero h = tt
NotIn-upwards j i (suc n) h = ((λ e. omega arith), NotIn-upwards j (suc i) n (omega arith))

Distinct-upwards : (i n : ℕ) → Distinct (upwards i n)
Distinct-upwards i zero = tt
Distinct-upwards i (suc n) = (NotIn-upwards i (suc i) n (omega arith), Distinct-upwards (suc i) n)

length-upwards : (i n : ℕ) → length (upwards i n) ≡ n
length-upwards i zero = refl
length-upwards i (suc n) = ap suc (length-upwards (suc i) n)

module _ {ℓ} {A : Type ℓ} where
  -- A new stack holds nothing.
  new-Represents : (n : ℕ) → n < null_index → Represents (suc n) (new {A = A} (suc n)) []
  unfolding new
  new-Represents n small = (
    [],
    upwards 0 (suc n),
    record {
      stack = refl;
      spare =
          upwards-Chain null_index 0 n
            (update (link_from (suc n - 1) 0 (λ i. null_index)) (suc n - 1) null_index)
            (λ k a b.
              update_ne (link_from (suc n - 1) 0 (λ i. null_index)) (suc n - 1) k null_index
                (λ e. omega arith)
              ∙ link_from_linked (suc n - 1) 0 k (λ i. null_index) a (omega arith))
            (update_eq (link_from (suc n - 1) 0 (λ i. null_index)) (suc n - 1) (0 + n) null_index
              (omega arith))
            (omega arith);
      used_once = tt;
      free_once = Distinct-upwards 0 (suc n);
      apart = tt;
      values = refl;
      total = omega (arith, length-upwards 0 (suc n));
    },
  )

  -- Any sequence of calls on a new stack, of a capacity from 1 to the null index, is answered as by
  -- a bounded stack that starts empty: `push` fails exactly at the capacity and `pop` exactly on the
  -- empty stack, and values come back last in, first out.
  pub new_refines_stack :
      (n : ℕ) (ops : List (Op A))
      → n < null_index
      → run (suc n) ops (new (suc n)) ≡ stack_run (suc n) ops []
  new_refines_stack n ops small =
      run_refines_stack (suc n) ops (new (suc n)) [] (new-Represents n small)
