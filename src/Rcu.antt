-- ===== src/Rcu.antt =====
-- modern_cpp_core/data_structures/rcu.hpp: the domain of reader epochs and the pointer that is
-- read, copied and updated. Slots, readers and writers are functions of their index. Each shared
-- access is one step, and atomics are sequentially consistent. Objects are numbered in the order
-- of their allocation, from 1; 0 is the null pointer.
pub mod Registry
pub mod Invariant
pub mod Readers
pub mod Writers
pub mod Updates
pub mod Safety
mod Tests
use emb_linux.Prelude.{
  ℕ, zero, suc, ◌+◌, ◌%◌, ◌^◌, List, [], ◌∷◌, Bool, true, false, ◌||◌, Option, none, some, ◌==◌,
  ltb, leb, if◌then◌else◌, update,
}

abbrev pub max_rcu_threads : ℕ
max_rcu_threads = 64

-- `rcu_domain`, its array of `ThreadRecord` as two arrays.
pub record Domain : Type 0 where
  pub epoch : ℕ → ℕ
  pub in_use : ℕ → Bool
  pub global_epoch : ℕ

abbrev pub new_domain : Domain
new_domain = record { epoch = λ i. 0; in_use = λ i. false; global_epoch = 1 }

-- `register_thread` with this number of slots left to try, the next of them `slot`. `none` is the
-- exception. It is run alone here; the steps of it that others can see are those of `Reader`.
register_from : ℕ → ℕ → Domain → Option (ℕ × Domain)
register_from zero slot d = none
register_from (suc left) slot d =
    if d.in_use slot
    then register_from left (suc slot) d
    else some (slot, record d { in_use = update d.in_use slot true; epoch = update d.epoch slot 0 })

pub register_thread : Domain → Option (ℕ × Domain)
unfolding register_from
register_thread d = register_from max_rcu_threads 0 d

pub unregister_thread : ℕ → Domain → Domain
unregister_thread slot d = record d {
  epoch = update d.epoch slot 0;
  in_use = update d.in_use slot false;
}

-- Where the thread of a slot stands: before and after registration, between the load and the
-- exchange of `lock`, and in its read-side section with the pointers that it has read there. A thread
-- may lock its slot again in a section: it is then between the load and the exchange of that `lock`, or
-- past it, with this number of sections around the one that it would leave next.
pub data Reader : Type 0 where
  absent : Reader
  registering : Reader
  outside : Reader
  locking : (current_epoch : ℕ) → Reader
  inside : (pointers : List ℕ) → Reader
  nesting : (current_epoch around : ℕ) (pointers : List ℕ) → Reader
  nested : (around : ℕ) (pointers : List ℕ) → Reader
  unregistering : Reader

pub data Wish : Type 0 where
  stay leave nest : Wish

-- Where a thread stands in `update`, with the locals of `synchronize`: past the exchange, at the
-- test of `in_use` of slot `i`, and in the spin on slot `i`.
pub data Writer : Type 0 where
  idle : Writer
  swapped : (old_ptr : ℕ) → Writer
  scanning : (old_ptr new_epoch i : ℕ) → Writer
  spinning : (old_ptr new_epoch i : ℕ) → Writer

pub record System : Type 0 where
  pub domain : Domain
  pub readers : ℕ → Reader
  pub writers : ℕ → Writer
  pub ptr : ℕ
  pub next_object : ℕ
  pub freed : ℕ → Bool

abbrev pub set_reader : ℕ → Reader → System → System
set_reader slot r s = record s { readers = update s.readers slot r }

abbrev pub set_writer : ℕ → Writer → System → System
set_writer w p s = record s { writers = update s.writers w p }

-- `epoch` of a slot is stored.
abbrev pub store_epoch : ℕ → ℕ → System → System
store_epoch slot e s = record s {
  domain = record (s.domain) { epoch = update s.domain.epoch slot e };
}

abbrev pub store_in_use : ℕ → Bool → System → System
store_in_use slot b s = record s {
  domain = record (s.domain) { in_use = update s.domain.in_use slot b };
}

-- The next access of the thread of a slot. It wishes to stay, and then registers, locks and reads
-- on, or to leave, and then unlocks and unregisters, or to lock its slot again in a section.
pub read_step : ℕ → Reader → Wish → System → System
read_step slot absent leave s = s
read_step slot absent nest s = s
read_step slot absent stay s = set_reader slot registering (store_in_use slot true s)
read_step slot registering wish s = set_reader slot outside (store_epoch slot 0 s)
read_step slot outside stay s = set_reader slot (locking s.domain.global_epoch) s
read_step slot outside leave s = set_reader slot unregistering (store_epoch slot 0 s)
read_step slot outside nest s = s
read_step slot (locking e) wish s = set_reader slot (inside []) (store_epoch slot e s)
read_step slot (inside ps) stay s = set_reader slot (inside (s.ptr ∷ ps)) s
read_step slot (inside ps) leave s = set_reader slot outside (store_epoch slot 0 s)
read_step slot (inside ps) nest s = set_reader slot (nesting s.domain.global_epoch 1 ps) s
read_step slot (nesting e around ps) wish s =
    set_reader slot (nested around ps) (store_epoch slot e s)
read_step slot (nested around ps) stay s = set_reader slot (nested around (s.ptr ∷ ps)) s
read_step slot (nested around ps) nest s =
    set_reader slot (nesting s.domain.global_epoch (suc around) ps) s
read_step slot (nested zero ps) leave s = set_reader slot outside (store_epoch slot 0 s)
read_step slot (nested (suc around) ps) leave s =
    set_reader slot (nested around ps) (store_epoch slot 0 s)
read_step slot unregistering wish s = set_reader slot absent (store_in_use slot false s)

-- `uint64_t` addition of one.
abbrev pub add_one : ℕ → ℕ
add_one e = (e + 1) % 2 ^ 64

-- `m_ptr.exchange(new_ptr)`, and the test of `old_ptr`.
pub swap_pointer : ℕ → ℕ → ℕ → System → System
swap_pointer w new_ptr next s = record s {
  ptr = new_ptr;
  next_object = next;
  writers = update s.writers w (if s.ptr == 0 then idle else swapped s.ptr);
}

-- The next access of a thread in `update`; one that begins is given a new object or null.
pub write_step : ℕ → Writer → Bool → System → System
unfolding swap_pointer
write_step w idle to_null s =
    if to_null
    then swap_pointer w 0 s.next_object s
    else swap_pointer w s.next_object (suc s.next_object) s
write_step w (swapped old) to_null s = record s {
  domain = record (s.domain) { global_epoch = add_one s.domain.global_epoch };
  writers = update s.writers w (scanning old (add_one s.domain.global_epoch) 0);
}
write_step w (scanning old new_epoch i) to_null s =
    if ltb i max_rcu_threads
    then set_writer w
        (if s.domain.in_use i then spinning old new_epoch i else scanning old new_epoch (suc i)) s
    else record s { freed = update s.freed old true; writers = update s.writers w idle }
write_step w (spinning old new_epoch i) to_null s =
    if s.domain.epoch i == 0 || leb new_epoch (s.domain.epoch i)
    then set_writer w (scanning old new_epoch (suc i)) s
    else s

-- Slots from `max_rcu_threads` on do not exist.
pub data Turn : Type 0 where
  reader_turn : (slot : ℕ) → Wish → Turn
  writer_turn : (writer : ℕ) → Bool → Turn

pub turn : Turn → System → System
unfolding read_step write_step
turn (reader_turn slot wish) s =
    if ltb slot max_rcu_threads then read_step slot (s.readers slot) wish s else s
turn (writer_turn w to_null) s = write_step w (s.writers w) to_null s

pub run : List Turn → System → System
unfolding turn
run [] s = s
run (t ∷ ts) s = run ts (turn t s)

-- A new domain, and a pointer that holds the first object.
abbrev pub initial : System
initial = record {
  domain = new_domain;
  readers = λ j. absent;
  writers = λ w. idle;
  ptr = 1;
  next_object = 2;
  freed = λ p. false;
}
