-- ===== src/Sender/Progress.antt =====
-- `trySend` comes to an end, and leaves nothing granted unsent without saying so in `sendReady`.
use homa.Base.{
  ℕ, zero, suc, ◌≤◌, ◌<◌, ◌≡◌, refl, inl, inr, true, false, Option, none, some, List, [], ◌∷◌, ◌++◌,
  arith, leb, Bool-cases, length,
}
use homa.Protocol.{MessageId}
use homa.Sender.{Message, num_packets, Sender}
use homa.Intrusive.{front}
use homa.Intrusive.Sums.{length-after, front-before, front-none, front-occurs}
use homa.Sender.Transmit.{send_packets, finish, sendable, transmit, send_granted, rounds}
use homa.Sender.Queue.{IsValid}
use homa.Sender.Pump.{IsDone}
use homa.Sender.Running.{
  pump-Running, queued_once, linked_at, measure, pass-Running, finish-Running, Sent, Running,
  left_over,
}

transmit-Sent :
    (fuel size : ℕ) (it : Option ℕ) (ids : List MessageId) (queued : ℕ) (s : Sender)
    → Running size it s
    → measure size it s < fuel
    → (r : List MessageId × Sender) × (transmit fuel it ids queued s ≡ some r) × Sent r.1
unfolding transmit
transmit-Sent zero size it ids queued s r h = absurd (omega arith)
transmit-Sent (suc fuel) size none ids queued s r h =
    ((ids, s), refl, record { valid = r.valid; done = λ _. r.visited })
transmit-Sent (suc fuel) size (some p) ids queued s r h =
    elim (Bool-cases (leb (num_packets m) m.info.packets_sent)) [
      | inl e ↦
          let next = finish-Running size p s' k.0 in
          rw e (
            transmit-Sent fuel size _ (ids ++ (m.info.id ∷ [])) queued' (finish p s') next.0
              (omega (arith, next.1, k.1)))
      | inr e ↦ elim (Bool-cases (leb m.info.packets_granted m.info.packets_sent)) [
        | inl d ↦
            let next = pass-Running size p s' k.0 (ground arith) in
            rw (e, d) (transmit-Sent fuel size _ ids queued' s' next.0 (omega (arith, next.1, k.1)))
        | inr d ↦
            rw (e, d)
              (
                (ids, record s' { send_ready = true }),
                refl,
                record { valid = k.0.valid; done = λ absurdity. cc },
              )
      ]
    ]
  where
    queued' : ℕ
    queued' = (send_packets (sendable (s.heap p)) p queued s).0

    s' : Sender
    s' = (send_packets (sendable (s.heap p)) p queued s).1

    m : Message
    m = s'.heap p

    k : Running size (some p) s' × (measure size (some p) s' ≤ measure size (some p) s)
    k = pump-Running size p queued s r

-- At the start the iterator points to the front of the queue.
start-Running :
    (s : Sender) (it : Option ℕ)
    → IsValid s
    → front s.send_queue ≡ it
    → Running (length s.send_queue) it s × (left_over it s ≤ length s.send_queue)
start-Running s none v e = (
  record {
    valid = v;
    points = tt;
    visited = front-none (IsDone s) s.send_queue e;
    fits = omega arith;
  },
  omega arith,
)
start-Running s (some p) v e =
    let busy = (queued_once p s v (front-occurs p s.send_queue e)).0 in
    (
      record {
        valid = v;
        points = busy;
        visited = front-before (IsDone s) p s.send_queue e;
        fits = omega arith;
      },
      length-after p s.send_queue (linked_at p s v busy),
    )

-- The loop of `trySend`, from the front of the queue on, comes to an end within its rounds.
pub drain_lem :
    (queued : ℕ) (s : Sender)
    → IsValid s
    → (r : List MessageId × Sender) × (transmit (rounds s) (front s.send_queue) [] queued s
        ≡ some r)
      × Sent r.1
unfolding rounds
drain_lem queued s v =
    let start = start-Running s (front s.send_queue) v refl in
    transmit-Sent _ (length s.send_queue) (front s.send_queue) [] queued s start.0
      (omega (arith, start.1))

-- `trySend` under the queue's lock comes to an end within its rounds. It keeps the invariant, and
-- unless it sets `sendReady` again, every granted packet of every queued message has been sent; where
-- it is called with `sendReady` not set, it does nothing.
pub send_granted_lem :
    (queued : ℕ) (s : Sender)
    → IsValid s
    → (s.send_ready ≡ true
        → (r : List MessageId × Sender) × (send_granted (rounds s) queued s ≡ some r) × Sent r.1)
      × (s.send_ready ≡ false → send_granted (rounds s) queued s ≡ some ([], s))
unfolding send_granted rounds
send_granted_lem queued s v = (
  λ ready. rw ready (unfold rounds in drain_lem queued (record s { send_ready = false }) v),
  λ idle. rw idle,
)
