-- ===== src/Spinlock.antt =====
-- modern_cpp_core/concurrency/spinlock.hpp: the flag and its threads, one access at a time.
pub mod Exclusion
mod Tests
use emb_linux.Prelude.{ℕ, List, [], ◌∷◌, Bool, true, false, if◌then◌else◌, update}

-- Where a thread stands: before the `test_and_set` of `lock`, in its inner loop, or in the critical
-- section, from which its next access is `unlock`.
pub data Thread : Type 0 where
  outside : Thread
  spinning : Thread
  inside : Thread

pub record Spinlock : Type 0 where
  pub flag : Bool
  pub threads : ℕ → Thread

abbrev pub new : Spinlock
new = record { flag = false; threads = λ t. outside }

pub access : ℕ → Thread → Spinlock → Spinlock
access t outside s =
    if s.flag
    then record s { threads = update s.threads t spinning }
    else record { flag = true; threads = update s.threads t inside }
access t spinning s = if s.flag then s else record s { threads = update s.threads t outside }
access t inside s = record { flag = false; threads = update s.threads t outside }

pub run : List ℕ → Spinlock → Spinlock
unfolding access
run [] s = s
run (t ∷ ts) s = run ts (access t (s.threads t) s)
