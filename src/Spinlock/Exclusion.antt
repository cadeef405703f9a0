-- ===== src/Spinlock/Exclusion.antt =====
-- The threads in the critical section of spinlock.hpp.
use emb_linux.Prelude.{
  ℕ, ◌≡◌, ◌≢◌, refl, sym, ap, ◌∙◌, List, [], ◌∷◌, Bool, true, false, if◌then◌else◌, update,
  update_eq, update_ne, inl, inr, eq-cases, true-ne_false,
}
use emb_linux.Spinlock.{Spinlock, Thread, outside, spinning, inside, new, access, run}

abbrev pub is_inside : Thread → Bool
is_inside outside = false
is_inside spinning = false
is_inside inside = true

-- A thread that is inside has the flag set, and is the only one.
record Inv (s : Spinlock) : Type 0 where
  pub flagged : (t : ℕ) → is_inside (s.threads t) ≡ true → s.flag ≡ true
  pub alone : (t u : ℕ) → is_inside (s.threads t) ≡ true → is_inside (s.threads u) ≡ true → t ≡ u

-- A thread goes to a place that is not inside, and so was inside before, if it is another.
was_inside :
    (s : Spinlock) (t u : ℕ) (p : Thread)
    → is_inside p ≡ false
    → is_inside (update s.threads t p u) ≡ true
    → (is_inside (s.threads u) ≡ true) × (t ≢ u)
was_inside s t u p a b = elim (eq-cases t u) [
  | inl e ↦ absurd (true-ne_false (sym b ∙ ap is_inside (update_eq s.threads t u p e) ∙ a))
  | inr e ↦ (sym (ap is_inside (update_ne s.threads t u p e)) ∙ b, e)
]

stays_out-Inv :
    (s : Spinlock) (t : ℕ) (p : Thread)
    → is_inside p ≡ false
    → Inv s
    → Inv (record s { threads = update s.threads t p })
stays_out-Inv s t p a v = record {
  flagged = λ u h. v.flagged u (was_inside s t u p a h).0;
  alone = λ u w h k. v.alone u w (was_inside s t u p a h).0 (was_inside s t w p a k).0;
}

leaves-Inv :
    (s : Spinlock) (t : ℕ)
    → is_inside (s.threads t) ≡ true
    → Inv s
    → Inv (record { flag = false; threads = update s.threads t outside })
leaves-Inv s t a v = record {
  flagged = λ u h. let w = was_inside s t u outside refl h in absurd (w.1 (v.alone t u a w.0));
  alone = λ u w h k.
      v.alone u w (was_inside s t u outside refl h).0 (was_inside s t w outside refl k).0;
}

enters-Inv :
    (s : Spinlock) (t : ℕ)
    → s.flag ≡ false
    → Inv s
    → Inv (record { flag = true; threads = update s.threads t inside })
enters-Inv s t free v = record {
  flagged = λ u h. refl;
  alone = λ u w h k. sym (only u h) ∙ only w k;
}
  where
    only : (u : ℕ) → is_inside (update s.threads t inside u) ≡ true → t ≡ u
    only u h = elim (eq-cases t u) [
      | inl e ↦ e
      | inr e ↦
          let in_before = sym (ap is_inside (update_ne s.threads t u inside e)) ∙ h in
          absurd (true-ne_false (sym (v.flagged u in_before) ∙ free))
    ]

if-Inv : (b : Bool) (r s : Spinlock) → Inv r → (b ≡ false → Inv s) → Inv (if b then r else s)
if-Inv true r s v w = v
if-Inv false r s v w = w refl

access-Inv : (t : ℕ) (p : Thread) (s : Spinlock) → s.threads t ≡ p → Inv s → Inv (access t p s)
unfolding access
access-Inv t outside s e v =
    if-Inv s.flag _ _ (stays_out-Inv s t spinning refl v) (λ f. enters-Inv s t f v)
access-Inv t spinning s e v = if-Inv s.flag _ _ v (λ f. stays_out-Inv s t outside refl v)
access-Inv t inside s e v = leaves-Inv s t (ap is_inside e) v

run-Inv : (ts : List ℕ) (s : Spinlock) → Inv s → Inv (run ts s)
unfolding run
run-Inv [] s v = v
run-Inv (t ∷ ts) s v = run-Inv ts _ (access-Inv t (s.threads t) s refl v)

-- In every schedule, two threads that are in the critical section are the same thread.
pub mutual_exclusion :
    (ts : List ℕ) (t u : ℕ)
    → is_inside ((run ts new).threads t) ≡ true
    → is_inside ((run ts new).threads u) ≡ true
    → t ≡ u
mutual_exclusion ts t u =
    (run-Inv ts new (record {
      flagged = λ k h. absurd (true-ne_false (sym h));
      alone = λ k l h g. absurd (true-ne_false (sym h));
    })).alone
      t u
