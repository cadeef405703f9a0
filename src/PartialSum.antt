-- ===== src/PartialSum.antt =====
-- The file C++_ConcurrencyInAction/designConcurrentCode/practice/parallelPartialSum.hpp: a spinning
-- barrier, and a partial sum in place by one thread for each element. A shared access is a step; the
-- update of an element, which no other thread writes, is one step. `unsigned` has 32 bits.
pub mod Waiting
pub mod Deadlock
mod Tests
use emb_linux.Prelude.{
  ℕ, zero, suc, ◌+◌, ◌-◌, ◌*◌, ◌%◌, ◌^◌, List, [], ◌∷◌, Bool, true, false, not, ◌==◌, leb, ltb,
  if◌then◌else◌, update,
}

-- Where process_element stands: at the test of its loop; in `wait` before the load of the generation,
-- before the decrement, before the two stores of the last thread to arrive, in the spin; or returned.
-- `carry` is what comes after the wait.
pub record Carry : Type 0 where
  pub step : ℕ
  pub stride : ℕ
  pub update_source : Bool

pub data Phase : Type 0 where
  at_test : (carry : Carry) → Phase
  loading : (carry : Carry) → Phase
  arriving : (my_generation : ℕ) (carry : Carry) → Phase
  resetting : (carry : Carry) → Phase
  advancing : (carry : Carry) → Phase
  spinning : (my_generation : ℕ) (carry : Carry) → Phase
  returned : Phase

pub record System {ℓ} (A : Type ℓ) : Type ℓ where
  pub elements : ℕ → A
  pub buffer : ℕ → A
  pub spaces : ℕ
  pub generation : ℕ
  pub phases : ℕ → Phase

abbrev pub is_odd : ℕ → Bool
is_odd n = n % 2 == 1

abbrev pub set_phase {ℓ} : {A : Type ℓ} → ℕ → Phase → System A → System A
set_phase i p s = record s { phases = update s.phases i p }

abbrev pub next_round : Carry → Carry
next_round c = record c { step = (c.step + 1) % 2 ^ 32; stride = c.stride * 2 % 2 ^ 32 }

module _ {ℓ} {A : Type ℓ} (add : A → A → A) (length : ℕ) where
  -- The threads are created, one of them the caller.
  abbrev pub start : (ℕ → A) → (ℕ → A) → System A
  start first buffer = record {
    elements = first;
    buffer = buffer;
    spaces = length % 2 ^ 32;
    generation = 0;
    phases = λ i. at_test (record { step = 0; stride = 1; update_source = false });
  }

  -- `dest = source + addend`
  pub add_stride : ℕ → Carry → System A → System A
  add_stride i c s =
      if is_odd c.step
      then record s { elements = update s.elements i (add (s.buffer i) (s.buffer (i - c.stride))) }
      else record s { buffer = update s.buffer i (add (s.elements i) (s.elements (i - c.stride))) }

  -- The next step of thread `i`.
  pub advance : ℕ → Phase → System A → System A
  unfolding add_stride
  advance i (at_test c) s =
      if leb c.stride i
      then set_phase i (loading (record c { update_source = not (is_odd c.step) }))
          (add_stride i c s)
      else set_phase i returned
          (if c.update_source then record s { elements = update s.elements i (s.buffer i) } else s)
  advance i (loading c) s = set_phase i (arriving s.generation c) s
  advance i (arriving g c) s =
      let left = (s.spaces + 2 ^ 32 - 1) % 2 ^ 32 in
      set_phase i (if left == 0 then resetting c else spinning g c) (record s { spaces = left })
  advance i (resetting c) s = set_phase i (advancing c) (record s { spaces = length % 2 ^ 32 })
  advance i (advancing c) s =
      set_phase i (at_test (next_round c)) (record s { generation = (s.generation + 1) % 2 ^ 32 })
  advance i (spinning g c) s =
      if s.generation == g then s else set_phase i (at_test (next_round c)) s
  advance i returned s = s

  -- A schedule names the threads by their elements.
  pub run : List ℕ → System A → System A
  unfolding advance
  run [] s = s
  run (i ∷ rest) s = run rest (if ltb i length then advance i (s.phases i) s else s)
