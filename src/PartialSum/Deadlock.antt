-- ===== src/PartialSum/Deadlock.antt =====
-- Runs of parallel_partial_sum, and the spaces of its barrier.
use emb_linux.Prelude.{
  ℕ, ◌+◌, ◌-◌, ◌%◌, ◌^◌, ◌≤◌, ◌<◌, ◌≡◌, ◌≢◌, refl, sym, ap, ◌∙◌, subst, List, [], ◌∷◌, Bool, true,
  false, inl, inr, eq-cases, ltb, leb, ltb→lt, ==-false, if◌then◌else◌, arith, sum, sum_change,
  sum_zero, update, update_self, update_ne, update_eq, not, eq→==,
}
use emb_linux.PartialSum.{
  Phase, at_test, loading, arriving, resetting, advancing, spinning, returned, System, is_odd,
  start, set_phase, add_stride, next_round, advance, run,
}
use emb_linux.PartialSum.Waiting.{
  waits, Fits, waits_small, first-waits, sum_two_less, reaches, misses, wraps, mod_small, if-keeps,
}

module _ {ℓ} {A : Type ℓ} (add : A → A → A) (length : ℕ) where
  record Inv (s : System A) : Type ℓ where
    pub closed : s.generation ≡ 0
    pub accounted : s.spaces + sum (λ i. waits (s.phases i)) length ≡ length
    pub fits : (i : ℕ) → i < length → Fits i (s.phases i)

  -- A step of thread `i` to phase `p`.
  moved :
      (i : ℕ) (p : Phase) (s s' : System A)
      → i < length
      → s'.generation ≡ 0
      → s'.phases ≡ update s.phases i p
      → s'.spaces + waits p ≡ s.spaces + waits (s.phases i)
      → Fits i p
      → Inv s
      → Inv s'
  moved i p s s' less closed phases spaces fit v =
      let at : (j : ℕ) → s'.phases j ≡ update s.phases i p j = λ j. ap (λ f. f j) phases in
      record {
        closed = closed;
        accounted = omega (
          arith,
          v.accounted,
          spaces,
          sum_change (λ j. waits (s.phases j)) (λ j. waits (s'.phases j)) i length less
              (λ j e. ap waits (sym (at j ∙ update_ne s.phases i j p (λ k. e (sym k))))),
          ap waits (at i ∙ update_self s.phases i p),
        );
        fits = λ j a. elim (eq-cases i j) [
          | inl e ↦
              subst (Fits j) (sym (at j ∙ update_eq s.phases i j p e)) (subst (λ k. Fits k p) e fit)
          | inr e ↦ subst (Fits j) (sym (at j ∙ update_ne s.phases i j p e)) (v.fits j a)
        ];
      }

  -- A thread that arrives leaves a space for the first one.
  space_left :
      (i : ℕ) (s : System A) → Inv s → i < length → 1 ≤ i → waits (s.phases i) ≡ 0 → 2 ≤ s.spaces
  space_left i s v less positive none_here = omega (
    arith,
    v.accounted,
    sum_two_less (λ j. waits (s.phases j)) i length (λ j. waits_small (s.phases j))
        (first-waits (s.phases 0) (v.fits 0 (omega arith))) positive less none_here,
  )

  if-Inv :
      (b : Bool) (x y : System A)
      → (b ≡ true → Inv x)
      → (b ≡ false → Inv y)
      → Inv (if b then x else y)
  if-Inv true x y f g = f refl
  if-Inv false x y f g = g refl

  advance-Inv :
      (i : ℕ) (q : Phase) (s : System A)
      → length < 2 ^ 32
      → s.phases i ≡ q
      → i < length
      → Inv s
      → Inv (advance add length i q s)
  unfolding advance add_stride
  advance-Inv i (at_test c) s small h less v =
      let one : c.stride ≡ 1 = subst (Fits i) h (v.fits i less) in
      let p = loading (record c { update_source = not (is_odd c.step) }) in
      if-Inv (leb c.stride i) _ _
        (λ e.
          moved i p s (set_phase i p (add_stride add length i c s)) less
            (if-keeps (λ (t : System A). t.generation) 0 (is_odd c.step) _ _ v.closed v.closed)
            (if-keeps (λ (t : System A). update t.phases i p) (update s.phases i p) (is_odd c.step)
              _ _ refl refl)
            (omega (
              arith,
              if-keeps (λ (t : System A). t.spaces) s.spaces (is_odd c.step)
                  (record s {
                    elements = update s.elements i (add (s.buffer i) (s.buffer (i - c.stride)));
                  })
                  (record s {
                    buffer = update s.buffer i (add (s.elements i) (s.elements (i - c.stride)));
                  })
                  refl refl,
              ap waits h,
            ))
            (reaches c.stride i one e) v)
        (λ e.
          moved i returned s _ less
            (if-keeps (λ (t : System A). t.generation) 0 c.update_source _ _ v.closed v.closed)
            (if-keeps (λ (t : System A). update t.phases i returned) (update s.phases i returned)
              c.update_source _ _ refl refl)
            (omega (
              arith,
              if-keeps (λ (t : System A). t.spaces) s.spaces c.update_source
                  (record s { elements = update s.elements i (s.buffer i) }) s refl refl,
              ap waits h,
            ))
            (misses c.stride i one e) v)
  advance-Inv i (loading c) s small h less v =
      moved i (arriving s.generation c) s _ less v.closed refl (omega (arith, ap waits h))
        (v.closed, subst (Fits i) h (v.fits i less)) v
  advance-Inv i (arriving g c) s small h less v =
      let (now, positive) = subst (Fits i) h (v.fits i less) in
      let enough = space_left i s v less positive (ap waits h) in
      let left = (s.spaces + 2 ^ 32 - 1) % 2 ^ 32 in
      let taken : left ≡ s.spaces - 1 = wraps s.spaces enough (omega (arith, v.accounted, small)) in
      subst
        (λ b.
          Inv (set_phase i (if b then resetting c else spinning g c) (record s { spaces = left })))
        (sym (==-false left 0 (λ e. omega (arith, e, taken, enough))))
        (moved i (spinning g c) s _ less v.closed refl (omega (arith, taken, enough, ap waits h))
          (now, positive) v)
  advance-Inv i (resetting c) s small h less v = absurd (subst (Fits i) h (v.fits i less))
  advance-Inv i (advancing c) s small h less v = absurd (subst (Fits i) h (v.fits i less))
  advance-Inv i (spinning g c) s small h less v =
      let (now, positive) = subst (Fits i) h (v.fits i less) in
      subst (λ b. Inv (if b then s else set_phase i (at_test (next_round c)) s))
        (sym (eq→== s.generation g (v.closed ∙ sym now))) v
  advance-Inv i returned s small h less v = v

  run-Inv :
      (schedule : List ℕ) (s : System A) → length < 2 ^ 32 → Inv s → Inv (run add length schedule s)
  unfolding run
  run-Inv [] s small v = v
  run-Inv (i ∷ rest) s small v = run-Inv rest _ small (
      if-Inv (ltb i length) _ _ (λ e. advance-Inv i (s.phases i) s small refl (ltb→lt i length e) v)
        (λ e. v))

-- For a length from 2 up to the largest number of barrier places, whatever the schedule, no thread but the
-- first one has returned, and in particular not the caller, which does the last element: so
-- parallel_partial_sum does not return.
pub run-stuck {ℓ} :
    {A : Type ℓ} (add : A → A → A) (length : ℕ) (first buffer : ℕ → A) (schedule : List ℕ)
    → 2 ≤ length
    → length < 2 ^ 32
    → (i : ℕ) → 1 ≤ i
    → i < length
    → (run add length schedule (start add length first buffer)).phases i ≢ returned
run-stuck add length first buffer schedule two small i positive less e =
    let v = run-Inv add length schedule (start add length first buffer) small (record {
      closed = refl;
      accounted = omega (arith, sum_zero (λ j. 0) length (λ j a. refl), mod_small length small);
      fits = λ j a. refl;
    }) in
    let here : i ≡ 0 = subst (Fits i) e (v.fits i less) in omega (arith, here, positive)
