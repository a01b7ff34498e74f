-- ===== src/Sender/Awake.antt =====
-- src/Sender.cc: `sendReady`, by which a thread is told that `trySend` has something to do.
use homa.Base.{
  ℕ, zero, suc, ◌+◌, ◌≤◌, ◌≡◌, inl, inr, false, ◌&&◌, ◌||◌, ltb, leb, ◌==◌, Bool-cases, All,
  All-map,
}
use homa.Protocol.{
  GrantHeader, ResendHeader, Packet, data_packet, grant_packet, done_packet, resend_packet,
  busy_packet, ping_packet, unknown_packet, error_packet,
}
use homa.Policy.{Unscheduled, get_unscheduled_policy}
use homa.Intrusive.Members.{All-remove}
use homa.Sender.{
  Status, in_progress, completed, failed, is_in_progress, is_sent, Message, num_packets, Sender,
  bucket_of, modify, set_state, set_timeouts, cancel_timeouts, release_packet, output, dequeue,
}
use homa.Sender.Messages.{unscheduled_index_limit, send_single, start_sending, enqueue}
use homa.Sender.Handlers.{
  done, handle_done_packet, grant, resend_range, answer_resend, resend, handle_resend_packet,
  granted, handle_grant_packet, leave_queue, update_headers, restart, unknown,
  handle_unknown_packet, error, handle_error_packet,
}
use homa.Sender.Packets.{handle_packet, found_cases}
use homa.Sender.Pump.{IsDone}

-- Unless `sendReady` is set, no message in the queue has a packet that is granted and not sent.
abbrev pub Awake : Sender → Type 0
Awake s = s.send_ready ≡ false → All (IsDone s) s.send_queue

-- A change of one message that leaves no packet of it granted and unsent if there was none.
pub Awake-modify :
    (p : ℕ) (f : Message → Message) (s : Sender)
    → ((m : Message)
        → m.info.packets_granted ≤ m.info.packets_sent
        → (f m).info.packets_granted ≤ (f m).info.packets_sent)
    → Awake s
    → Awake (modify p f s)
Awake-modify p f s keep a quiet =
    All-map (IsDone s) (IsDone (modify p f s))
      (λ q d. elim (Bool-cases (q == p)) [ inl e ↦ rw e (keep (s.heap q) d) | inr e ↦ rw e d ])
      s.send_queue (a quiet)

pub Awake-set_state : (st : Status) (p : ℕ) (s : Sender) → Awake s → Awake (set_state st p s)
unfolding set_state
Awake-set_state st p s = Awake-modify p (λ m. record m { state = st }) s (λ m h. h)

pub Awake-dequeue : (p : ℕ) (s : Sender) → Awake s → Awake (dequeue p s)
unfolding dequeue
Awake-dequeue p s a quiet = All-remove (IsDone s) p s.send_queue (a quiet)

Awake-leave_queue : (p : ℕ) (s : Sender) → Awake s → Awake (leave_queue p s)
unfolding leave_queue
Awake-leave_queue p s a quiet =
    elim (Bool-cases (ltb 1 (num_packets (s.heap p)) && is_in_progress (s.heap p).state)) [
      | inl e ↦ rw e (All-remove (IsDone s) p s.send_queue (a quiet))
      | inr e ↦ rw e (a quiet)
    ]

Awake-grant : (p limit priority : ℕ) (s : Sender) → Awake s → Awake (grant p limit priority s)
unfolding grant
Awake-grant p limit priority s a = elim (Bool-cases (ltb (s.heap p).info.packets_granted limit)) [
  | inl e ↦ rw e (λ quiet. cc)
  | inr e ↦ rw e a
]

Awake-resend_range :
    (p ip priority i n : ℕ) (s : Sender) → Awake s → Awake (resend_range p ip priority i n s)
unfolding resend_range output
Awake-resend_range p ip priority i zero s a = a
Awake-resend_range p ip priority i (suc n) s a =
    Awake-resend_range p ip priority (i + 1) n (output _ s) a

Awake-answer_resend :
    (p index resend_end : ℕ) (s : Sender) → Awake s → Awake (answer_resend p index resend_end s)
unfolding answer_resend output
Awake-answer_resend p index resend_end s a =
    elim (Bool-cases (leb (s.heap p).info.packets_sent index)) [
      | inl e ↦ rw e a
      | inr e ↦ rw e (Awake-resend_range p _ _ index _ s a)
    ]

Awake-resend : (b p : ℕ) (h : ResendHeader) (s : Sender) → Awake s → Awake (resend b p h s)
unfolding resend set_timeouts
Awake-resend b p h s a = elim (Bool-cases (ltb (num_packets (s.heap p)) 2)) [
  | inl e ↦ rw e a
  | inr e ↦
      elim (Bool-cases
        (leb (num_packets (s.heap p)) h.index || ltb (num_packets (s.heap p)) (h.index + h.num))) [
          | inl f ↦ rw (e, f) a
          | inr f ↦
              rw (e, f)
                (Awake-answer_resend p h.index (h.index + h.num) _
                  (Awake-grant p (h.index + h.num) h.priority (set_timeouts b p s) a))
        ]
]

Awake-granted : (b p : ℕ) (h : GrantHeader) (s : Sender) → Awake s → Awake (granted b p h s)
unfolding granted set_timeouts
Awake-granted b p h s a = elim (Bool-cases (is_in_progress (s.heap p).state)) [
  | inl e ↦ rw e (Awake-grant p _ h.priority (set_timeouts b p s) a)
  | inr e ↦ rw e a
]

pub Awake-start_sending :
    (b p : ℕ) (policy : Unscheduled) (limit : ℕ) (s : Sender)
    → Awake s
    → Awake (start_sending b p policy limit s)
unfolding start_sending send_single enqueue output cancel_timeouts
Awake-start_sending b p policy limit s a = elim (Bool-cases (num_packets (s.heap p) == 1)) [
  | inl e ↦ elim (Bool-cases (s.heap p).options.no_keep_alive) [
    | inl k ↦ rw (e, k) (Awake-set_state _ p (output _ s) a)
    | inr k ↦ rw (e, k) (Awake-set_state _ p (output _ s) a)
  ]
  | inr e ↦ rw e (λ quiet. cc)
]

Awake-restart : (b p : ℕ) (s : Sender) → Awake s → Awake (restart b p s)
unfolding restart set_timeouts
Awake-restart b p s a = Awake-start_sending b p policy limit _ (
    Awake-modify p (λ m. record m { packets = update_headers policy.version limit m.packets }) left
      (λ m h. h) (Awake-set_state in_progress p (leave_queue p s) (Awake-leave_queue p s a)))
  where
    policy : Unscheduled
    policy =
        (get_unscheduled_policy s.policy_manager (s.heap p).destination.ip
          (s.heap p).message_length).0

    limit : ℕ
    limit = unscheduled_index_limit s.config policy

    left : Sender
    left = set_state in_progress p (leave_queue p s)

Awake-unknown : (b p : ℕ) (s : Sender) → Awake s → Awake (unknown b p s)
unfolding unknown cancel_timeouts
Awake-unknown b p s a =
    elim (Bool-cases (is_in_progress (s.heap p).state || is_sent (s.heap p).state)) [
      | inl e ↦ elim (Bool-cases (s.heap p).options.no_retry) [
        | inl k ↦
            rw (e, k)
              (Awake-set_state failed p (cancel_timeouts b p (leave_queue p s))
                (Awake-leave_queue p s a))
        | inr k ↦ rw (e, k) (Awake-restart b p s a)
      ]
      | inr e ↦ rw e a
    ]

Awake-done : (b p : ℕ) (s : Sender) → Awake s → Awake (done b p s)
unfolding done cancel_timeouts
Awake-done b p s a = elim (Bool-cases (is_sent (s.heap p).state)) [
  | inl e ↦ rw e (Awake-set_state completed p _ a)
  | inr e ↦ rw e a
]

Awake-error : (b p : ℕ) (s : Sender) → Awake s → Awake (error b p s)
unfolding error cancel_timeouts
Awake-error b p s a = elim (Bool-cases (is_sent (s.heap p).state)) [
  | inl e ↦ rw e (Awake-set_state failed p _ a)
  | inr e ↦ rw e a
]

-- Incoming packets grant nothing without setting `sendReady`.
pub handle_packet-Awake : (packet : Packet) (s : Sender) → Awake s → Awake (handle_packet packet s)
unfolding handle_packet handle_grant_packet handle_done_packet handle_resend_packet
    handle_unknown_packet handle_error_packet release_packet
handle_packet-Awake (grant_packet h) s a =
    found_cases Awake s h.id (λ p. granted (bucket_of s h.id) p h) a
      (λ p _. Awake-granted _ p h s a)
handle_packet-Awake (done_packet id) s a =
    found_cases Awake s id (λ p. done (bucket_of s id) p) a (λ p _. Awake-done _ p s a)
handle_packet-Awake (resend_packet h) s a =
    found_cases Awake s h.id (λ p. resend (bucket_of s h.id) p h) a (λ p _. Awake-resend _ p h s a)
handle_packet-Awake (unknown_packet id) s a =
    found_cases Awake s id (λ p. unknown (bucket_of s id) p) a (λ p _. Awake-unknown _ p s a)
handle_packet-Awake (error_packet id) s a =
    found_cases Awake s id (λ p. error (bucket_of s id) p) a (λ p _. Awake-error _ p s a)
handle_packet-Awake (data_packet h) s a = a
handle_packet-Awake (busy_packet id) s a = a
handle_packet-Awake (ping_packet id) s a = a
