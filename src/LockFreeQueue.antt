-- ===== src/LockFreeQueue.antt =====
-- modern_cpp_core/data_structures/lock_free_queue.hpp: the single-producer single-consumer ring.
-- The buffer is a function of the index. `push` and `pop` are the calls run alone; `produce` and
-- `consume` make one shared access of a call at a time, so that a schedule can interleave them.
-- Atomics are sequentially consistent.
pub mod Window
pub mod Sequential
pub mod Invariant
pub mod Interleaved
mod Tests
use emb_linux.Prelude.{
  ℕ, ◌+◌, ◌%◌, ◌^◌, Bool, true, false, Option, none, some, ◌==◌, if◌then◌else◌, update, List, [],
  ◌∷◌, ◌++◌,
}

pub record Queue {ℓ} (A : Type ℓ) : Type ℓ where
  pub buffer : ℕ → A
  pub head : ℕ
  pub tail : ℕ

-- `size_t` addition
abbrev pub add_size : ℕ → ℕ → ℕ
add_size a b = (a + b) % 2 ^ 64

-- The index after `i` in a ring of `kRealCapacity` cells.
abbrev pub next_index : ℕ → ℕ → ℕ
next_index capacity i = add_size i 1 % (capacity + 1)

module _ {ℓ} {A : Type ℓ} (capacity : ℕ) where
  pub push : A → Queue A → Bool × Queue A
  push value q = if next_index capacity q.tail == q.head then (false, q) else (
    true,
    record q { buffer = update q.buffer q.tail value; tail = next_index capacity q.tail },
  )

  pub pop : Queue A → Option A × Queue A
  pop q =
      if q.head == q.tail
      then (none, q)
      else (some (q.buffer q.head), record q { head = next_index capacity q.head })

-- Where the producer stands in `push(value)`, with the local `current_tail`.
pub data Producer {ℓ} (A : Type ℓ) : Type ℓ where
  idle : Producer A
  loaded_tail : (current_tail : ℕ) → A → Producer A
  checked_full : (current_tail : ℕ) → A → Producer A
  wrote_cell : (current_tail : ℕ) → A → Producer A

-- Where the consumer stands in `pop()`, with the locals `current_head` and `value`.
pub data Consumer {ℓ} (A : Type ℓ) : Type ℓ where
  idle : Consumer A
  loaded_head : (current_head : ℕ) → Consumer A
  checked_empty : (current_head : ℕ) → Consumer A
  read_cell : (current_head : ℕ) → A → Consumer A

-- One producer and one consumer over a queue. `accepted` lists the values of the pushes that
-- returned true, and `taken` the values that pops returned, each in the order of the calls.
pub record System {ℓ} (A : Type ℓ) : Type ℓ where
  pub queue : Queue A
  pub producer : Producer A
  pub consumer : Consumer A
  pub accepted : List A
  pub taken : List A

pub data Turn {ℓ} (A : Type ℓ) : Type ℓ where
  producer_turn : A → Turn A
  consumer_turn : Turn A

module _ {ℓ} {A : Type ℓ} (capacity : ℕ) where
  -- The next shared access of `push`. A call that begins is given `value`.
  produce : Producer A → A → System A → System A
  produce idle value s = record s { producer = loaded_tail s.queue.tail value }
  produce (loaded_tail t x) value s =
      if next_index capacity t == s.queue.head
      then record s { producer = idle }
      else record s { producer = checked_full t x }
  produce (checked_full t x) value s = record s {
    queue = record (s.queue) { buffer = update s.queue.buffer t x };
    producer = wrote_cell t x;
  }
  produce (wrote_cell t x) value s = record s {
    queue = record (s.queue) { tail = next_index capacity t };
    producer = idle;
    accepted = s.accepted ++ (x ∷ []);
  }

  -- The next shared access of `pop`.
  consume : Consumer A → System A → System A
  consume idle s = record s { consumer = loaded_head s.queue.head }
  consume (loaded_head h) s =
      if h == s.queue.tail
      then record s { consumer = idle }
      else record s { consumer = checked_empty h }
  consume (checked_empty h) s = record s { consumer = read_cell h (s.queue.buffer h) }
  consume (read_cell h x) s = record s {
    queue = record (s.queue) { head = next_index capacity h };
    consumer = idle;
    taken = s.taken ++ (x ∷ []);
  }

  pub turn : Turn A → System A → System A
  unfolding produce consume
  turn (producer_turn value) s = produce s.producer value s
  turn consumer_turn s = consume s.consumer s

  pub run : List (Turn A) → System A → System A
  unfolding turn
  run [] s = s
  run (t ∷ ts) s = run ts (turn t s)

-- A new queue, whose cells hold what default construction leaves there, and two idle threads.
abbrev pub initial {ℓ} : {A : Type ℓ} → (ℕ → A) → System A
initial buffer = record {
  queue = record { buffer = buffer; head = 0; tail = 0 };
  producer = Producer.idle;
  consumer = Consumer.idle;
  accepted = [];
  taken = [];
}
