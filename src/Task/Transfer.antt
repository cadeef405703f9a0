-- ===== src/Task/Transfer.antt =====
-- One transfer of task.hpp at a time, and what the completion of a task means.
use emb_linux.Prelude.{
  ℕ, zero, suc, ◌≤◌, ◌<◌, ◌≡◌, ◌≢◌, refl, sym, ap, ◌∙◌, none, some, arith, update, update_self,
  update_ne,
}
use emb_linux.Task.{
  Answer, value, exception, Body, returns, throws, awaits, Place, at_body, suspended, final,
  destroyed, Frame, Machine, new_frame, await_resume, await_new, finish_task, run_frame, step, run,
}

module _ {ℓ} {V E : Type ℓ} (bad_alloc : E) where
  -- The bodies as direct calls, with this number of free blocks: a call takes one for as long as it runs,
  -- and throws std::bad_alloc when there is none.
  abbrev pub call : Body V E → ℕ → Answer V E
  call (returns v) n = value v
  call (throws e) n = exception e
  call (awaits child rest) zero = call (rest (exception bad_alloc)) zero
  call (awaits child rest) (suc n) = call (rest (call child n)) (suc n)

  -- Coroutine `h`, which is running at the start, has come to its final suspension with the answer
  -- `a`, control is with its continuation, the frames that were there before are as they were, those made
  -- since are destroyed, and as many blocks are free as were.
  pub record Completed (h : ℕ) (a : Answer V E) (s t : Machine V E) : Type ℓ where
    pub place : (t.frames h).place ≡ final
    pub answer : await_resume (t.frames h).m_exception (t.frames h).m_value ≡ some a
    pub continuation : (t.frames h).m_continuation ≡ (s.frames h).m_continuation
    pub control : t.current ≡ (s.frames h).m_continuation
    pub untouched : (i : ℕ) → i ≢ h → i < s.next_frame → t.frames i ≡ s.frames i
    pub blocks : t.free_blocks ≡ s.free_blocks
    pub grows : s.next_frame ≤ t.next_frame
    pub cleaned : (i : ℕ) → s.next_frame ≤ i → i < t.next_frame → (t.frames i).place ≡ destroyed

  -- Coroutine `h` is about to run this body.
  pub record Starts (h : ℕ) (body : Body V E) (s : Machine V E) : Type ℓ where
    pub running : s.current ≡ some h
    pub allocated : h < s.next_frame
    pub at : (s.frames h).place ≡ at_body body
    pub no_exception : (s.frames h).m_exception ≡ none

  -- The machine comes to a state with this property.
  abbrev pub Reaches : Machine V E → (Machine V E → Type ℓ) → Type ℓ
  Reaches s P = (n : ℕ) × (t : Machine V E) × (run bad_alloc n s ≡ some t) × P t

  pub one_step :
      (h : ℕ) (p : Place V E) (s t : Machine V E) {P : Machine V E → Type ℓ}
      → s.current ≡ some h
      → (s.frames h).place ≡ p
      → run_frame bad_alloc h p s ≡ some t
      → Reaches t P
      → Reaches s P
  unfolding run step
  one_step h p s t c e f (n, u, g, q) = (
    suc n,
    u,
    ap (λ o. elim o [ none ↦ none | some k ↦ run bad_alloc n k ])
          (ap (λ o. step bad_alloc o s) c ∙ ap (λ k. run_frame bad_alloc h k s) e ∙ f)
        ∙ g,
    q,
  )

  pub finish_task-Completed :
      (h : ℕ) (a : Answer V E) (f : Frame V E) (s : Machine V E)
      → f.m_continuation ≡ (s.frames h).m_continuation
      → await_resume f.m_exception f.m_value ≡ some a
      → Completed h a s (finish_task h f s)
  unfolding finish_task
  finish_task-Completed h a f s c r =
      let g : Frame V E = record f { place = final } in
      let e = update_self s.frames h g in
      record {
        place = ap (λ k. k.place) e;
        answer = ap (λ k. await_resume k.m_exception k.m_value) e ∙ r;
        continuation = ap (λ k. k.m_continuation) e ∙ c;
        control = c;
        untouched = λ i ne b. update_ne s.frames h i g (λ k. ne (sym k));
        blocks = refl;
        grows = omega arith;
        cleaned = λ i b c. absurd (omega (arith, b, c));
      }

  module _ (h : ℕ) (child : Body V E) (rest : Answer V E → Body V E) (left : ℕ)
      (s : Machine V E) where
    -- The frame of the awaited task, and those of the others, after `await_suspend`.
    unfoldable pub awaited : Machine V E
    awaited = await_new bad_alloc h child rest (suc left) s

    pub awaited-frames :
        h < s.next_frame
        → (awaited.frames s.next_frame ≡ record (new_frame child) { m_continuation = some h })
          × (awaited.frames h ≡ record (s.frames h) { place = suspended s.next_frame rest })
          × ((i : ℕ) → i ≢ h → i < s.next_frame → awaited.frames i ≡ s.frames i)
    unfolding awaited await_new
    awaited-frames l =
        let f : Frame V E = record (new_frame child) { m_continuation = some h } in
        let g : Frame V E = record (s.frames h) { place = suspended s.next_frame rest } in
        let inner = update s.frames s.next_frame f in
        (
          update_ne inner h s.next_frame g (λ e. omega (arith, e))
              ∙ update_self s.frames s.next_frame f,
          update_self inner h g,
          λ i ne b.
              update_ne inner h i g (λ e. ne (sym e))
              ∙ update_ne s.frames s.next_frame i f (λ e. omega (arith, e, b)),
        )

    pub awaited-Starts : h < s.next_frame → Starts s.next_frame child awaited
    unfolding awaited await_new
    awaited-Starts l =
        let e = (awaited-frames l).0 in
        record {
          running = refl;
          allocated = omega arith;
          at = ap (λ f. f.place) e;
          no_exception = ap (λ f. f.m_exception) e;
        }

  -- The state after `go_on`.
  abbrev pub resumed : ℕ → ℕ → Body V E → Machine V E → Machine V E
  resumed h n body t = record t {
    frames =
        update (update t.frames n (record (t.frames n) { place = destroyed })) h
          (record (t.frames h) { place = at_body body });
    free_blocks = suc t.free_blocks;
  }
