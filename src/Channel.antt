-- ===== src/Channel.antt =====
-- modern_cpp_core/coroutines/channel.hpp: the bounded channel between coroutines of one thread. There
-- an await is not interrupted between its test and its suspension, and a coroutine that is resumed
-- goes on at once, so that `send` and `receive` are whole steps. Coroutines are numbered.
pub mod Laws
mod Tests
use emb_linux.Prelude.{
  ℕ, List, [], ◌∷◌, ◌++◌, Bool, true, false, Option, none, some, ltb, if◌then◌else◌, length,
}

-- `sent` and `received` list the values in the order of the calls and of the answers.
pub record Channel {ℓ} (A : Type ℓ) : Type ℓ where
  pub queue : List A
  pub send_waiters : List (ℕ × A)
  pub recv_waiters : List ℕ
  pub sent : List A
  pub received : List A

abbrev pub new {ℓ} : {A : Type ℓ} → Channel A
new = record { queue = []; send_waiters = []; recv_waiters = []; sent = []; received = [] }

module _ {ℓ} {A : Type ℓ} where
  -- The value of the first waiting sender goes to the queue, and the sender is resumed.
  pub refill : List (ℕ × A) → Channel A → Channel A
  refill [] c = c
  refill ((coro, val) ∷ rest) c = record c { queue = c.queue ++ (val ∷ []); send_waiters = rest }

  -- The front of the queue is received. `none` is the front of an empty queue.
  pub take_front : List A → Channel A → Option (Channel A)
  unfolding refill
  take_front [] c = none
  take_front (x ∷ xs) c =
      some (refill c.send_waiters (record c { queue = xs; received = c.received ++ (x ∷ []) }))

  -- The first waiting receiver is resumed, and its `await_resume` takes the front.
  pub wake_receiver : List ℕ → Channel A → Option (Channel A)
  unfolding take_front
  wake_receiver [] c = some c
  wake_receiver (coro ∷ rest) c = take_front c.queue (record c { recv_waiters = rest })

  pub send : ℕ → ℕ → A → Channel A → Option (Channel A)
  unfolding wake_receiver
  send capacity coro val c =
      if ltb (length c.queue) capacity
      then wake_receiver c.recv_waiters
          (record c { queue = c.queue ++ (val ∷ []); sent = c.sent ++ (val ∷ []) })
      else some (record c {
        send_waiters = c.send_waiters ++ ((coro, val) ∷ []);
        sent = c.sent ++ (val ∷ []);
      })

  pub receive : List A → ℕ → Channel A → Option (Channel A)
  unfolding take_front
  receive [] coro c = some (record c { recv_waiters = c.recv_waiters ++ (coro ∷ []) })
  receive (x ∷ xs) coro c = take_front (x ∷ xs) c

pub data Await {ℓ} (A : Type ℓ) : Type ℓ where
  sends : (coro : ℕ) → A → Await A
  receives : (coro : ℕ) → Await A

module _ {ℓ} {A : Type ℓ} where
  pub step : ℕ → Await A → Channel A → Option (Channel A)
  unfolding send receive
  step capacity (sends coro val) c = send capacity coro val c
  step capacity (receives coro) c = receive c.queue coro c

  pub run : ℕ → List (Await A) → Channel A → Option (Channel A)
  unfolding step
  run capacity [] c = some c
  run capacity (a ∷ rest) c = elim (step capacity a c) [
    | none ↦ none
    | some d ↦ run capacity rest d
  ]
