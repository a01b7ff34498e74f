-- ===== src/Sender/Operations.antt =====
-- src/Sender.cc: the operations of the sender one after the other, in any order, as one thread runs them.
use homa.Base.{
  ℕ, ◌≡◌, sym, ◌∙◌, subst, inl, inr, ◌⊎◌, true, false, ◌&&◌, some, List, [], ◌∷◌, arith, ltb,
  Bool-cases, Option-cases, All,
}
use homa.Protocol.{MessageId, Packet}
use homa.Timeout.{Timeout, front, has_elapsed}
use homa.Policy.{Unscheduled, get_unscheduled_policy}
use homa.Intrusive.{contains}
use homa.Sender.{
  canceled, failed, is_in_progress, is_completed, Options, SocketAddress, num_packets, Sender,
  bucket_of, set_timeouts, cancel_timeouts, dequeue, find_message, output,
}
use homa.Sender.Messages.{
  unscheduled_index_limit, prepare, send_message, cancel_message, drop_message, destroy,
  alloc_message, make_message,
}
use homa.Sender.Expiry.{expire_message, expire_ping, set_ping_timeout, cancel_ping_timeout}
use homa.Sender.Transmit.{settle, settle_all, try_send}
use homa.Sender.Queue.{IsValid, IsSized}
use homa.Sender.Sending.{
  send_message-IsValid, cancel_message-IsValid, drop_message-IsValid, alloc_message-IsValid,
}
use homa.Sender.Packets.{handle_packet, handle_packet-IsValid}
use homa.Sender.Timeouts.{expire_message-IsValid}
use homa.Sender.Pings.{expire_ping_cases}
use homa.Sender.Pump.{IsDone}
use homa.Sender.Progress.{send_granted_lem}
use homa.Sender.Sends.{try_send-IsValid}
use homa.Sender.Awake.{
  Awake, Awake-modify, Awake-set_state, Awake-dequeue, Awake-start_sending, handle_packet-Awake,
}

-- What one thread may do next to the sender. The application sends a message at most once at a time, with
-- the length of its data and some data. The allocator gives out an address that is not in use by a
-- message in progress. What the loops of `checkMessageTimeouts` and `checkPingTimeouts` do in a round is
-- an operation of its own; `queued` is what `driver->getQueuedBytes()` answers.
pub data Operation (s : Sender) : Sender → Type 0 where
  packet : (k : Packet) → Operation s (handle_packet k s)
  send :
      (p : ℕ) (destination : SocketAddress) (options : Options)
      → is_in_progress (s.heap p).state ≡ false
      → IsSized (s.heap p)
      → Operation s (send_message p destination options s)
  cancel : (p : ℕ) → Operation s (cancel_message p s)
  drop : (p : ℕ) → Operation s (drop_message p s)
  alloc :
      (p source_port : ℕ)
      → is_in_progress (s.heap p).state ≡ false
      → Operation s (alloc_message p source_port s)
  expire :
      (now b : ℕ) {t : Timeout}
      → front (s.buckets b).message_timeouts ≡ some t
      → has_elapsed now t ≡ true
      → Operation s (expire_message b t.owner s)
  ping :
      (now b : ℕ) {t : Timeout}
      → front (s.buckets b).ping_timeouts ≡ some t
      → has_elapsed now t ≡ true
      → Operation s (expire_ping b t.owner s)
  pump : (queued : ℕ) {t : Sender} → try_send queued s ≡ some t → Operation s t

-- Any number of operations, one after the other.
pub data Run (s : Sender) : Sender → Type 0 where
  here : Run s s
  next : {t u : Sender} → Run s t → Operation t u → Run s u

expire_ping-IsValid : (b p : ℕ) (s : Sender) → IsValid s → IsValid (expire_ping b p s)
unfolding cancel_ping_timeout cancel_timeouts set_ping_timeout output
expire_ping-IsValid b p s v = expire_ping_cases IsValid b p s v v v (λ _. v)

some_inj : {A : Type 0} {a b : A} → some a ≡ some b → a ≡ b
some_inj e = cc

Operation-IsValid : {s t : Sender} → Operation s t → IsValid s → IsValid t
Operation-IsValid {s} (packet k) v = handle_packet-IsValid k s v
Operation-IsValid {s} (send p destination options idle z) v =
    send_message-IsValid p destination options s v idle z
Operation-IsValid {s} (cancel p) v = cancel_message-IsValid p s v
Operation-IsValid {s} (drop p) v = drop_message-IsValid p s v
Operation-IsValid {s} (alloc p source_port idle) v = alloc_message-IsValid p source_port s v idle
Operation-IsValid {s} (expire now b {t} _ _) v = expire_message-IsValid b t.owner s v
Operation-IsValid {s} (ping now b {t} _ _) v = expire_ping-IsValid b t.owner s v
Operation-IsValid {s} (pump queued ran) v =
    let (t, ran', w) = try_send-IsValid queued s v in subst IsValid (some_inj (sym ran' ∙ ran)) w

Awake-send_message :
    (p : ℕ) (destination : SocketAddress) (options : Options) (s : Sender)
    → Awake s
    → Awake (send_message p destination options s)
unfolding send_message set_timeouts prepare
Awake-send_message p destination options s a =
    Awake-start_sending _ p policy limit _
      (Awake-modify p (prepare id destination options policy limit) s (λ m h. h) a)
  where
    id : MessageId
    id = record { transport_id = s.config.transport_id; sequence = s.next_message_sequence_number }

    policy : Unscheduled
    policy = (get_unscheduled_policy s.policy_manager destination.ip (s.heap p).message_length).0

    limit : ℕ
    limit = unscheduled_index_limit s.config policy

Awake-cancel_message : (p : ℕ) (s : Sender) → Awake s → Awake (cancel_message p s)
unfolding cancel_message cancel_timeouts
Awake-cancel_message p s a =
    elim (Bool-cases (contains p (s.buckets (bucket_of s (s.heap p).id)).messages)) [
      | inl e ↦
          elim (Bool-cases (ltb 1 (num_packets (s.heap p)) && is_in_progress (s.heap p).state)) [
            | inl k ↦
                rw (e, k) (Awake-set_state canceled p (dequeue p quiet) (Awake-dequeue p quiet a))
            | inr k ↦ rw (e, k) (Awake-set_state canceled p quiet a)
          ]
      | inr e ↦ rw e a
    ]
  where
    quiet : Sender
    quiet = cancel_timeouts (bucket_of s (s.heap p).id) p s

Awake-drop_message : (p : ℕ) (s : Sender) → Awake s → Awake (drop_message p s)
unfolding drop_message destroy cancel_timeouts
Awake-drop_message p s a = elim (Bool-cases (is_in_progress (s.heap p).state)) [
  | inl e ↦ rw e (Awake-modify p (λ m. record m { held = false }) s (λ m h. h) a)
  | inr e ↦ rw e (Awake-modify p (λ m. record m { held = false }) s (λ m h. h) a)
]

Awake-alloc_message :
    (p source_port : ℕ) (s : Sender) → Awake s → Awake (alloc_message p source_port s)
unfolding alloc_message make_message
Awake-alloc_message p source_port s =
    Awake-modify p (λ _. make_message source_port) s (λ m h. omega arith)

Awake-expire_message : (b p : ℕ) (s : Sender) → Awake s → Awake (expire_message b p s)
unfolding expire_message cancel_timeouts
Awake-expire_message b p s a = elim (Bool-cases (is_completed (s.heap p).state)) [
  | inl e ↦ rw e a
  | inr e ↦ elim (Bool-cases (is_in_progress (s.heap p).state)) [
    | inl k ↦ rw (e, k) (Awake-set_state failed p (dequeue p s) (Awake-dequeue p s a))
    | inr k ↦ rw (e, k) (Awake-set_state failed p s a)
  ]
]

Awake-expire_ping : (b p : ℕ) (s : Sender) → Awake s → Awake (expire_ping b p s)
unfolding cancel_ping_timeout cancel_timeouts set_ping_timeout output
Awake-expire_ping b p s a = expire_ping_cases Awake b p s a a a (λ _. a)

-- What is left to do for a message that was sent in full grants nothing.
settle-Awake : (id : MessageId) (s : Sender) → Awake s → Awake (settle id s)
unfolding settle destroy cancel_timeouts
settle-Awake id s a = elim (Option-cases (find_message s id)) [
  | inl e ↦ rw (e, settle) a
  | inr (p, e) ↦ elim (Bool-cases (s.heap p).held) [
    | inl held ↦ elim (Bool-cases (s.heap p).options.no_keep_alive) [
      | inl k ↦ rw (e, settle) (rw (held, k) a)
      | inr k ↦ rw (e, settle) (rw (held, k) a)
    ]
    | inr dropped ↦ rw (e, settle) (rw dropped a)
  ]
]

settle_all-Awake : (ids : List MessageId) (s : Sender) → Awake s → Awake (settle_all ids s)
unfolding settle_all
settle_all-Awake [] s a = a
settle_all-Awake (id ∷ ids) s a = settle_all-Awake ids (settle id s) (settle-Awake id s a)

try_send-Awake :
    (queued : ℕ) (s : Sender)
    → IsValid s
    → Awake s
    → {t : Sender} → try_send queued s ≡ some t
    → Awake t
unfolding try_send
try_send-Awake queued s v a ran = elim (Bool-cases s.send_ready) [
  | inl ready ↦
      let ((ids, s'), looped, result) = (send_granted_lem queued s v).0 ready in
      subst Awake (some_inj (rw (looped, try_send) at ran)) (settle_all-Awake ids s' result.done)
  | inr idle ↦
      subst Awake (some_inj (rw ((send_granted_lem queued s v).1 idle, try_send) at ran))
        (settle_all-Awake [] s a)
]

Operation-Awake : {s t : Sender} → Operation s t → IsValid s → Awake s → Awake t
Operation-Awake {s} (packet k) v a = handle_packet-Awake k s a
Operation-Awake {s} (send p destination options _ _) v a =
    Awake-send_message p destination options s a
Operation-Awake {s} (cancel p) v a = Awake-cancel_message p s a
Operation-Awake {s} (drop p) v a = Awake-drop_message p s a
Operation-Awake {s} (alloc p source_port _) v a = Awake-alloc_message p source_port s a
Operation-Awake {s} (expire now b {t} _ _) v a = Awake-expire_message b t.owner s a
Operation-Awake {s} (ping now b {t} _ _) v a = Awake-expire_ping b t.owner s a
Operation-Awake {s} (pump queued ran) v a = try_send-Awake queued s v a ran

Run-Invariants : {s t : Sender} → Run s t → IsValid s → Awake s → IsValid t × Awake t
Run-Invariants here v a = (v, a)
Run-Invariants (next r o) v a =
    let (w, b) = Run-Invariants r v a in (Operation-IsValid o w, Operation-Awake o w b)

-- Either `trySend` is asked for, or it has nothing to do.
abbrev pub IsServed : Sender → Type 0
IsServed s = (s.send_ready ≡ true) ⊎ All (IsDone s) s.send_queue

served : (s : Sender) → Awake s → IsServed s
served s a = elim (Bool-cases s.send_ready) [ inl e ↦ inl e | inr e ↦ inr (a e) ]

-- From a valid sender in which `sendReady` is set or every queued message has sent all that it was
-- granted, after any operations as one thread runs them, the sender is valid and again the one or the
-- other holds; and a call of `trySend` comes to an end, whatever is queued at the driver, in a sender of
-- which the same holds. No operation sends a message that is in progress, or one whose length is not
-- that of its data, and the allocator gives out no address of a message in progress.
pub run_lem :
    (s : Sender) {t : Sender}
    → IsValid s
    → IsServed s
    → Run s t
    → IsValid t
      × IsServed t
      × ((queued : ℕ) → (u : Sender) × (try_send queued t ≡ some u) × IsValid u × IsServed u)
run_lem s {t} v a r =
    let (w, b) = Run-Invariants r v (asked s a) in
    (
      w,
      served t b,
      λ queued.
          let (u, ran, k) = try_send-IsValid queued t w in
          (u, ran, k, served u (try_send-Awake queued t w b ran)),
    )
  where
    asked : (s : Sender) → IsServed s → Awake s
    asked s (inl ready) quiet = cc
    asked s (inr done) quiet = done
