-- ===== src/LockFreeStack/Laws.antt =====
-- The nodes of lock_free_stack.hpp: in the stack or free, each in one place.
use emb_linux.Prelude.{
  ℕ, ◌+◌, ◌≡◌, refl, sym, subst, ◌∙◌, List, [], ◌∷◌, Option, none, some, arith, true, ==-false,
  update, update_self, update_ne, map, ap₂, length,
}
use emb_linux.Chain.{
  Chain, NotIn, Distinct, Apart, Chain-update, Apart-cons, Apart-tail, Apart-NotIn,
}
use emb_linux.LockFreeStack.{Stack, null_index, push, pop}

-- What the nodes of a list hold is not changed by a write to another node.
map-update {ℓ} :
    {A : Type ℓ} (content : ℕ → Option A) (j : ℕ) (v : Option A) (is : List ℕ)
    → NotIn j is
    → map (update content j v) is ≡ map content is
map-update content j v [] n = refl
map-update content j v (i ∷ is) n =
    ap₂ ◌∷◌ (update_ne content j i v n.0) (map-update content j v is n.1)

-- The nodes `used` are in the stack, from the top down, and hold the values `xs`; the nodes `free`
-- are on the free list; no node is in two places, and together they are as many as the capacity.
pub record Holds {ℓ} {A : Type ℓ} (capacity : ℕ) (s : Stack A) (used free : List ℕ) (xs : List A)
    : Type ℓ where
  pub stack : Chain null_index s.next s.head.index used
  pub spare : Chain null_index s.next s.free_head.index free
  pub used_once : Distinct used
  pub free_once : Distinct free
  pub apart : Apart used free
  pub values : map s.content used ≡ map some xs
  pub total : length used + length free ≡ capacity

module _ {ℓ} {A : Type ℓ} (capacity : ℕ) {s : Stack A} where
  -- A value goes into the first free node.
  pub push-Holds :
      (x : A) (j : ℕ) (used free : List ℕ) (xs : List A)
      → Holds capacity s used (j ∷ free) xs
      → ((push x s).0 ≡ true) × Holds capacity (push x s).1 (j ∷ used) free (x ∷ xs)
  unfolding push
  push-Holds x j used free xs v =
      rw (==-false s.free_head.index null_index (λ e. v.spare.1 (sym v.spare.0 ∙ e)), v.spare.0)
        (
          refl,
          record {
            stack = (
              refl,
              v.spare.1,
              subst (λ k. Chain null_index (update s.next j s.head.index) k used)
                  (sym (update_self s.next j s.head.index))
                  (Chain-update null_index s.next j s.head.index s.head.index used
                    (Apart-NotIn used free j v.apart) v.stack),
            );
            spare =
                Chain-update null_index s.next j s.head.index (s.next j) free v.free_once.0
                  v.spare.2;
            used_once = (Apart-NotIn used free j v.apart, v.used_once);
            free_once = v.free_once.1;
            apart = (v.free_once.0, Apart-tail used free j v.apart);
            values =
                ap₂ ◌∷◌ (update_self s.content j (some x)) (
                  map-update s.content j (some x) used (Apart-NotIn used free j v.apart)
                  ∙ v.values);
            total = omega (arith, v.total);
          },
        )

  -- The top node's value is returned, and the node goes to the free list.
  pub pop-Holds :
      (x : A) (j : ℕ) (used free : List ℕ) (xs : List A)
      → Holds capacity s (j ∷ used) free (x ∷ xs)
      → ((pop s).0 ≡ some x) × Holds capacity (pop s).1 used (j ∷ free) xs
  unfolding pop
  pop-Holds x j used free xs v =
      rw (==-false s.head.index null_index (λ e. v.stack.1 (sym v.stack.0 ∙ e)), v.stack.0)
        (
          ground (arith, v.values),
          record {
            stack =
                Chain-update null_index s.next j s.free_head.index (s.next j) used v.used_once.0
                  v.stack.2;
            spare = (
              refl,
              v.stack.1,
              subst (λ k. Chain null_index (update s.next j s.free_head.index) k free)
                  (sym (update_self s.next j s.free_head.index))
                  (Chain-update null_index s.next j s.free_head.index s.free_head.index free
                    v.apart.0 v.spare),
            );
            used_once = v.used_once.1;
            free_once = (v.apart.0, v.free_once);
            apart = Apart-cons used free j v.used_once.0 v.apart.1;
            values = map-update s.content j none used v.used_once.0 ∙ ground (arith, v.values);
            total = omega (arith, v.total);
          },
        )
