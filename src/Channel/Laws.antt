-- ===== src/Channel/Laws.antt =====
-- The order of the values in channel.hpp, and who waits when.
use emb_linux.Prelude.{
  ℕ, ◌+◌, ◌≤◌, ◌<◌, ◌≡◌, refl, sym, ap, ◌∙◌, List, [], ◌∷◌, ◌++◌, none, some, Option, arith,
  append_assoc, append-nil, Bool, true, false, if◌then◌else◌, ltb, length, length-append, lt→ltb,
  ltb→lt, true-ne_false,
}
use emb_linux.Channel.{
  Channel, new, refill, take_front, wake_receiver, send, receive, Await, sends, receives, step, run,
}

module _ {ℓ} {A : Type ℓ} where
  -- The values that are sent and not received, in order.
  abbrev pub pending : List (ℕ × A) → List A
  pending [] = []
  pending ((coro, val) ∷ rest) = val ∷ pending rest

  pending-append :
      (ws : List (ℕ × A)) (coro : ℕ) (val : A)
      → pending (ws ++ ((coro, val) ∷ [])) ≡ pending ws ++ (val ∷ [])
  pending-append [] coro val = refl
  pending-append ((d, v) ∷ ws) coro val = ap (◌∷◌ v) (pending-append ws coro val)

  pending-empty : (ws : List (ℕ × A)) → length ws ≡ 0 → pending ws ≡ []
  pending-empty [] h = refl
  pending-empty (w ∷ ws) h = absurd (omega (arith, h))

-- The values received, queued and held by waiting senders are those sent, in order; senders wait
-- only at a full queue, and receivers only at an empty one.
pub record Inv {ℓ} {A : Type ℓ} (capacity : ℕ) (c : Channel A) : Type ℓ where
  pub order : c.sent ≡ c.received ++ (c.queue ++ pending c.send_waiters)
  pub bounded : length c.queue ≤ capacity
  pub senders : 0 < length c.send_waiters → length c.queue ≡ capacity
  pub receivers : 0 < length c.recv_waiters → length c.queue ≡ 0

module _ {ℓ} {A : Type ℓ} (capacity : ℕ) where
  -- The step does nothing undefined and keeps the invariant.
  Safe : Option (Channel A) → Type ℓ
  Safe o = (c : Channel A) × (o ≡ some c) × Inv capacity c

  refill-Inv :
      (x : A) (xs : List A) (ws : List (ℕ × A)) (c : Channel A)
      → c.sent ≡ c.received ++ ((x ∷ xs) ++ pending ws)
      → length (x ∷ xs) ≤ capacity
      → (0 < length ws → length (x ∷ xs) ≡ capacity)
      → (0 < length c.recv_waiters → length xs + length ws ≡ 0)
      → Inv capacity (
          refill ws (record c { queue = xs; send_waiters = ws; received = c.received ++ (x ∷ []) }))
  unfolding refill
  refill-Inv x xs [] c o b s r = record {
    order = o ∙ sym (append_assoc c.received (x ∷ []) (xs ++ []));
    bounded = omega (arith, b);
    senders = λ h. absurd (omega (arith, h));
    receivers = λ h. omega (arith, r h);
  }
  refill-Inv x xs ((coro, v) ∷ rest) c o b s r =
      let full = s (omega arith) in
      record {
        order =
            o
            ∙ sym (append_assoc c.received (x ∷ []) (xs ++ (v ∷ pending rest)))
            ∙ ap (◌++◌ (c.received ++ (x ∷ []))) (sym (append_assoc xs (v ∷ []) (pending rest)));
        bounded = omega (arith, length-append xs (v ∷ []), full);
        senders = λ h. omega (arith, length-append xs (v ∷ []), full);
        receivers = λ h. absurd (omega (arith, r h));
      }

  take_front-Safe :
      (queue : List A) (c : Channel A)
      → 0 < length queue
      → c.sent ≡ c.received ++ (queue ++ pending c.send_waiters)
      → length queue ≤ capacity
      → (0 < length c.send_waiters → length queue ≡ capacity)
      → (0 < length c.recv_waiters → length queue + length c.send_waiters ≡ 1)
      → Safe (take_front queue c)
  unfolding take_front Safe
  take_front-Safe [] c p o b s r = absurd (omega (arith, p))
  take_front-Safe (x ∷ xs) c p o b s r =
      (_, refl, refill-Inv x xs c.send_waiters c o b s (λ h. omega (arith, r h)))

  -- A value put in the queue is where a receiver, if one waits, finds it.
  wake-Safe :
      (waiters : List ℕ) (v : A) (c : Channel A)
      → c.recv_waiters ≡ waiters
      → length c.queue < capacity
      → Inv capacity c
      → Safe (
          wake_receiver waiters
            (record c { queue = c.queue ++ (v ∷ []); sent = c.sent ++ (v ∷ []) }))
  unfolding wake_receiver Safe
  wake-Safe waiters v c e free i = go waiters e
    where
      none_wait : length c.send_waiters ≡ 0
      none_wait =
          let not_so : ¬ (0 < length c.send_waiters) = λ h. omega (arith, i.senders h, free) in
          omega (arith, not_so)

      empty : pending c.send_waiters ≡ []
      empty = pending-empty c.send_waiters none_wait

      in_order :
          c.sent ++ (v ∷ []) ≡ c.received ++ ((c.queue ++ (v ∷ [])) ++ pending c.send_waiters)
      in_order =
          ap (λ k. k ++ (v ∷ [])) i.order
          ∙ append_assoc c.received (c.queue ++ pending c.send_waiters) (v ∷ [])
          ∙ ap (λ k. c.received ++ ((c.queue ++ k) ++ (v ∷ []))) empty
          ∙ ap (λ k. c.received ++ (k ++ (v ∷ []))) (append-nil c.queue)
          ∙ sym (ap (λ k. c.received ++ k) (append-nil (c.queue ++ (v ∷ []))))
          ∙ sym (ap (λ k. c.received ++ ((c.queue ++ (v ∷ [])) ++ k)) empty)

      longer : length (c.queue ++ (v ∷ [])) ≡ length c.queue + 1
      longer = length-append c.queue (v ∷ [])

      go :
          (waiters : List ℕ)
          → c.recv_waiters ≡ waiters
          → Safe (
              wake_receiver waiters
                (record c { queue = c.queue ++ (v ∷ []); sent = c.sent ++ (v ∷ []) }))
      go [] e = (
        _,
        refl,
        record {
          order = in_order;
          bounded = omega (arith, longer, free);
          senders = λ h. absurd (omega (arith, h, none_wait));
          receivers = λ h. absurd (omega (arith, h, ap length e));
        },
      )
      go (r ∷ rest) e =
          let was_empty = i.receivers (omega (arith, ap length e)) in
          take_front-Safe (c.queue ++ (v ∷ []))
            (record c {
              queue = c.queue ++ (v ∷ []);
              sent = c.sent ++ (v ∷ []);
              recv_waiters = rest;
            })
            (omega (arith, longer)) in_order (omega (arith, longer, free))
            (λ h. absurd (omega (arith, h, none_wait)))
            (λ h. omega (arith, longer, was_empty, none_wait))

  -- A sender that finds the queue full waits with its value.
  suspends-Safe :
      (coro : ℕ) (v : A) (c : Channel A)
      → ¬ (length c.queue < capacity)
      → Inv capacity c
      → Safe (
          some (record c {
            send_waiters = c.send_waiters ++ ((coro, v) ∷ []);
            sent = c.sent ++ (v ∷ []);
          }))
  unfolding Safe
  suspends-Safe coro v c not_so i = (
    _,
    refl,
    record {
      order =
          ap (λ k. k ++ (v ∷ [])) i.order
          ∙ append_assoc c.received (c.queue ++ pending c.send_waiters) (v ∷ [])
          ∙ ap (◌++◌ c.received) (append_assoc c.queue (pending c.send_waiters) (v ∷ []))
          ∙ sym (ap (λ k. c.received ++ (c.queue ++ k)) (pending-append c.send_waiters coro v));
      bounded = i.bounded;
      senders = λ h. omega (arith, i.bounded, not_so);
      receivers = i.receivers;
    },
  )

  if-Safe :
      (b : Bool) (o p : Option (Channel A))
      → (b ≡ true → Safe o)
      → (b ≡ false → Safe p)
      → Safe (if b then o else p)
  if-Safe true o p v w = v refl
  if-Safe false o p v w = w refl

  send-Safe : (coro : ℕ) (v : A) (c : Channel A) → Inv capacity c → Safe (send capacity coro v c)
  unfolding send
  send-Safe coro v c i =
      if-Safe (ltb (length c.queue) capacity) _ _
        (λ h. wake-Safe c.recv_waiters v c refl (ltb→lt (length c.queue) capacity h) i)
        (λ h.
          suspends-Safe coro v c (λ l. true-ne_false (sym (lt→ltb (length c.queue) capacity l) ∙ h))
            i)

  receive-Safe :
      (queue : List A) (coro : ℕ) (c : Channel A)
      → c.queue ≡ queue
      → Inv capacity c
      → Safe (receive queue coro c)
  unfolding receive Safe
  receive-Safe [] coro c e i = (
    _,
    refl,
    record {
      order = i.order;
      bounded = i.bounded;
      senders = i.senders;
      receivers = λ h. omega (arith, ap length e);
    },
  )
  receive-Safe (x ∷ xs) coro c e i =
      take_front-Safe (x ∷ xs) c (omega arith)
        (i.order ∙ ap (λ q. c.received ++ (q ++ pending c.send_waiters)) e)
        (omega (arith, ap length e, i.bounded)) (λ h. omega (arith, ap length e, i.senders h))
        (λ h. absurd (omega (arith, ap length e, i.receivers h)))

  step-Safe : (a : Await A) (c : Channel A) → Inv capacity c → Safe (step capacity a c)
  unfolding step
  step-Safe (sends coro v) c i = send-Safe coro v c i
  step-Safe (receives coro) c i = receive-Safe c.queue coro c refl i

  -- From a channel that satisfies the invariant no sequence of sends and receives does anything
  -- undefined, and afterwards the values sent are, in order, those received, those queued and those
  -- of the waiting senders, the queue holds at most the capacity, senders wait only when it is full,
  -- and receivers only when it is empty.
  pub run_awaits-Inv :
      (awaits : List (Await A)) (c : Channel A)
      → Inv capacity c
      → (d : Channel A) × (run capacity awaits c ≡ some d) × Inv capacity d
  unfolding run Safe
  run_awaits-Inv [] c i = (c, refl, i)
  run_awaits-Inv (a ∷ rest) c i =
      let (d, e, j) = step-Safe a c i in
      let (last, f, k) = run_awaits-Inv rest d j in
      (last, ap (λ o. elim o [ none ↦ none | some u ↦ run capacity rest u ]) e ∙ f, k)

  pub new-Inv : Inv capacity (new {A = A})
  new-Inv = record {
    order = refl;
    bounded = omega arith;
    senders = λ h. absurd (omega (arith, h));
    receivers = λ h. refl;
  }
