-- ===== src/Rcu/Safety.antt =====
-- The interleavings of readers and writers of rcu.hpp, and the objects that are deleted.
use emb_linux.Prelude.{
  ℕ, suc, ◌+◌, ◌^◌, ◌≤◌, ◌<◌, ◌≡◌, ◌≢◌, ◌⊎◌, inl, inr, refl, sym, ap, ◌∙◌, subst, List, [], ◌∷◌,
  Bool, true, false, some, arith, ◌==◌, Bool-cases, ltb, leb, if◌then◌else◌, ◌||◌, ltb→lt, length,
}
use emb_linux.Rcu.{
  Writer, System, Turn, idle, swapped, scanning, spinning, write_step, set_writer, max_rcu_threads,
  reader_turn, writer_turn, turn, run, initial,
}
use emb_linux.Rcu.Invariant.{In, held, retired, passed, IsBefore, Inv}
use emb_linux.Rcu.Readers.{read_step-Inv}
use emb_linux.Rcu.Writers.{advance-Inv, slot_free-unused, slot_free-inactive, slot_free-late}
use emb_linux.Rcu.Updates.{swap_pointer-Inv, fetch_add-Inv, delete-Inv}

weaken : {bound : ℕ} {s : System} → Inv bound s → Inv (suc bound) s
weaken inv = record {
  started = inv.started;
  small = omega (arith, inv.small);
  reader_ok = inv.reader_ok;
  ptr_below = inv.ptr_below;
  ptr_live = inv.ptr_live;
  null_live = inv.null_live;
  fresh = inv.fresh;
  held_live = inv.held_live;
  retired_live = inv.retired_live;
  unique = inv.unique;
  before = inv.before;
  clear = inv.clear;
  beyond = inv.beyond;
}

module _ {bound : ℕ} {s : System} (inv : Inv bound s) (w : ℕ) where
  -- The slot `i` has a reason to be passed.
  pass-Inv :
      (p : Writer) (old new_epoch i : ℕ)
      → s.writers w ≡ p
      → retired p ≡ some old
      → passed p ≡ i
      → ((e : ℕ) → IsBefore p e → e < new_epoch)
      → ¬ In old (held (s.readers i))
      → Inv bound (set_writer w (scanning old new_epoch (suc i)) s)
  pass-Inv p old new_epoch i was is at earlier free =
      advance-Inv inv w (scanning old new_epoch (suc i)) old (ap retired was ∙ is) refl
        (λ e h. earlier e (subst (λ q. IsBefore q e) was h))
        (λ j l. elim (Bool-cases (ltb j i)) [
          | inl e ↦ inl (omega (arith, ltb→lt j i e, ap passed was, at))
          | inr e ↦ inr (subst (λ k. ¬ In old (held (s.readers k))) (ground arith) free)
        ])

  scan-Inv :
      (old new_epoch i : ℕ)
      → s.writers w ≡ scanning old new_epoch i
      → Inv bound (
          set_writer w
            (if s.domain.in_use i then spinning old new_epoch i else scanning old new_epoch (suc i))
            s)
  scan-Inv old new_epoch i was = elim (Bool-cases (s.domain.in_use i)) [
    | inl e ↦ rw e (
        advance-Inv inv w (spinning old new_epoch i) old (ap retired was) refl
          (λ n h. subst (λ q. IsBefore q n) was h)
          (λ j l. inl (subst (λ q. j < passed q) (sym was) l)))
    | inr e ↦ rw e (
        pass-Inv (scanning old new_epoch i) old new_epoch i was refl refl (λ n h. h)
          (slot_free-unused inv w i old e))
  ]

  spin-Inv :
      (old new_epoch i : ℕ)
      → s.writers w ≡ spinning old new_epoch i
      → Inv bound (
          if s.domain.epoch i == 0 || leb new_epoch (s.domain.epoch i)
          then set_writer w (scanning old new_epoch (suc i)) s
          else s)
  spin-Inv old new_epoch i was =
      elim (Bool-cases (s.domain.epoch i == 0 || leb new_epoch (s.domain.epoch i))) [
        | inl e ↦ subst chosen (sym e) (
            pass-Inv (spinning old new_epoch i) old new_epoch i was refl refl (λ n h. h) (reason e))
        | inr e ↦ subst chosen (sym e) inv
      ]
    where
      chosen : Bool → Type 0
      chosen b = Inv bound (if b then set_writer w (scanning old new_epoch (suc i)) s else s)

      split :
          (s.domain.epoch i == 0 || leb new_epoch (s.domain.epoch i)) ≡ true
          → (s.domain.epoch i ≡ 0) ⊎ (new_epoch ≤ s.domain.epoch i)
      split e = ground arith

      reason :
          (s.domain.epoch i == 0 || leb new_epoch (s.domain.epoch i)) ≡ true
          → ¬ In old (held (s.readers i))
      reason e = elim (split e) [
        | inl zero_epoch ↦ slot_free-inactive inv w i old zero_epoch
        | inr late ↦ slot_free-late inv w i old new_epoch i was late
      ]

  write_step-Inv :
      (p : Writer) (to_null : Bool)
      → s.writers w ≡ p
      → suc bound < 2 ^ 64
      → Inv (suc bound) (write_step w p to_null s)
  unfolding write_step
  write_step-Inv idle true was room = weaken (
      swap_pointer-Inv inv w 0 s.next_object (inl refl) (omega (arith, inv.ptr_below))
        (omega arith))
  write_step-Inv idle false was room = weaken (
      swap_pointer-Inv inv w s.next_object (suc s.next_object) (inr (omega arith)) (omega arith)
        (omega arith))
  write_step-Inv (swapped old) to_null was room = fetch_add-Inv inv w old was room
  write_step-Inv (scanning old new_epoch i) to_null was room =
      elim (Bool-cases (ltb i max_rcu_threads)) [
        | inl e ↦ rw e (weaken (scan-Inv old new_epoch i was))
        | inr e ↦ rw e (weaken (delete-Inv inv w old new_epoch i was (ground arith)))
      ]
  write_step-Inv (spinning old new_epoch i) to_null was room = weaken (spin-Inv old new_epoch i was)

turn-Inv :
    (t : Turn) {bound : ℕ} {s : System}
    → Inv bound s
    → suc bound < 2 ^ 64
    → Inv (suc bound) (turn t s)
unfolding turn
turn-Inv (reader_turn slot wish) {s = s} inv room = elim (Bool-cases (ltb slot max_rcu_threads)) [
  | inl e ↦
      rw e
        (weaken (read_step-Inv inv slot (ltb→lt slot max_rcu_threads e) (s.readers slot) wish refl))
  | inr e ↦ rw e (weaken inv)
]
turn-Inv (writer_turn w to_null) {s = s} inv room =
    write_step-Inv inv w (s.writers w) to_null refl room

run-Inv :
    (ts : List Turn) {bound : ℕ} {s : System}
    → Inv bound s
    → bound + length ts < 2 ^ 64
    → (limit : ℕ) × Inv limit (run ts s)
unfolding run
run-Inv [] {bound} inv room = (bound, inv)
run-Inv (t ∷ ts) inv room = run-Inv ts (turn-Inv t inv (omega arith)) (omega arith)

initial-Inv : Inv 1 initial
initial-Inv = record {
  started = omega arith;
  small = omega arith;
  reader_ok = λ j. tt;
  ptr_below = omega arith;
  ptr_live = refl;
  null_live = refl;
  fresh = λ p h. refl;
  held_live = λ j p h. absurd h;
  retired_live = λ w old h. cc;
  unique = λ w v old h k. cc;
  before = λ w j old h k. absurd k;
  clear = λ w j old h l k. k;
  beyond = λ j h. refl;
}

-- For every schedule of readers and writers that is too short for the 64-bit epoch to wrap: no
-- pointer that a reader has read in its present section has been deleted, unless the thread has locked
-- its slot again in that section.
pub no_use_after_free :
    (ts : List Turn) (j p : ℕ)
    → 1 + length ts < 2 ^ 64
    → In p (held ((run ts initial).readers j))
    → (run ts initial).freed p ≡ false
no_use_after_free ts j p short h = ((run-Inv ts initial-Inv short).1.held_live j p h).0

-- For such a schedule: an object that a writer has swapped out and is still to delete has not been
-- deleted, is no longer the current one, and no other writer is to delete it.
pub no_double_free :
    (ts : List Turn) (w v old : ℕ)
    → 1 + length ts < 2 ^ 64
    → retired ((run ts initial).writers w) ≡ some old
    → ((run ts initial).freed old ≡ false)
      × (old ≢ (run ts initial).ptr)
      × (retired ((run ts initial).writers v) ≡ some old → w ≡ v)
no_double_free ts w v old short h =
    let inv = (run-Inv ts initial-Inv short).1 in
    let (nonzero, other, below, live) = inv.retired_live w old h in
    (live, other, λ k. inv.unique w v old h k)
