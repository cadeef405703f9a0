-- ===== src/ParallelAlgorithms/Order.antt =====
-- The tasks of parallel_algorithms.hpp in any order.
use mathlib.Core.List.{Perm, Permᴰ, perm_append_comm}
use mathlib.Core.List.Perm
use emb_linux.Prelude.{
  ℕ, ◌+◌, ◌^◌, ◌<◌, ◌≡◌, sym, ap, ◌∙◌, subst, some_inj, List, [], ◌++◌, some, length, append_assoc,
}
use emb_linux.ParallelAlgorithms.{for_each_tasks}
use emb_linux.ParallelAlgorithms.Chunks.{concat, for_each_covers}

module _ {ℓ} {A : Type ℓ} where
  concat-Perm : {xss yss : List (List A)} → Permᴰ xss yss → Perm (concat xss) (concat yss)
  unfolding concat
  concat-Perm Permᴰ.nil = Perm.refl []
  concat-Perm (Permᴰ.cons {a = xs} {l₁ = xss} {l₂ = yss} e p) =
      subst (λ k. Perm (xs ++ concat xss) (k ++ concat yss)) e
        (Perm.append (Perm.refl xs) (concat-Perm p))
  concat-Perm (Permᴰ.swap {a} {b} {b' = c} {l} e f) =
      subst (λ k. Perm (a ++ (b ++ concat l)) (k ++ (c ++ concat l))) f
        (subst (λ k. Perm (a ++ (b ++ concat l)) (b ++ (k ++ concat l))) e
          (subst (λ k. Perm k (b ++ (a ++ concat l))) (append_assoc a b (concat l))
            (subst (Perm ((a ++ b) ++ concat l)) (append_assoc b a (concat l))
              (Perm.append_right (concat l) (perm_append_comm a b)))))
  concat-Perm (Permᴰ.trans p q) = Perm.trans (concat-Perm p) (concat-Perm q)

  -- In whatever order the pool runs the tasks of `parallel_for_each`, the function is called once
  -- with each element of the range; the chunk size is not zero, and the sum does not wrap.
  pub for_each_any_order :
      (xs : List A) (chunk_size : ℕ) {tasks order : List (List A)}
      → 0 < chunk_size
      → length xs + chunk_size < 2 ^ 64
      → for_each_tasks xs chunk_size ≡ some tasks
      → Permᴰ order tasks
      → Perm (concat order) xs
  for_each_any_order xs chunk_size {tasks} {order} a b e p =
      let (tasks', e', covers) = for_each_covers xs chunk_size a b in
      subst (Perm (concat order)) (ap concat (some_inj (sym e ∙ e')) ∙ covers) (concat-Perm p)
