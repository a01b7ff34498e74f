-- ===== src/Sender/States.antt =====
-- How the states of messages change under incoming packets.
use homa.Base.{
  ℕ, zero, suc, ◌+◌, ◌≡◌, refl, ap, ◌∙◌, inl, inr, ◌||◌, Option, none, some, ltb, leb, ◌==◌,
  if◌then◌else◌, maybe, ==_iff, ==_refl, Bool-cases, Option-cases,
}
use homa.Protocol.{
  MessageId, GrantHeader, ResendHeader, Packet, data_packet, grant_packet, done_packet,
  resend_packet, busy_packet, ping_packet, unknown_packet, error_packet,
}
use homa.Policy.{Unscheduled, get_unscheduled_policy}
use homa.Sender.{
  Status, in_progress, sent, completed, failed, is_in_progress, is_sent, Message, num_packets,
  data_output, Sender, bucket_of, find_message, modify, set_state, set_timeouts, cancel_timeouts,
  release_packet, output,
}
use homa.Sender.Messages.{unscheduled_index_limit, reset_info, enqueue, send_single, start_sending}
use homa.Sender.Handlers.{
  done, handle_done_packet, grant, resend_range, answer_resend, resend, handle_resend_packet,
  granted, handle_grant_packet, leave_queue, update_headers, restart, unknown,
  handle_unknown_packet, error, handle_error_packet,
}
use homa.Sender.Queue.{is_active}
use homa.Sender.Packets.{handle_packet}
use homa.Sender.Sending.{length-update_headers}

-- The message that a packet is about, for the packets that go to the sender.
abbrev pub subject : Packet → Option MessageId
subject (grant_packet h) = some h.id
subject (done_packet id) = some id
subject (resend_packet h) = some h.id
subject (unknown_packet id) = some id
subject (error_packet id) = some id
subject _ = none

-- The state that a message is to have after a packet about it.
abbrev pub answer : Packet → Message → Status
answer (done_packet id) m = if is_sent m.state then completed else m.state
answer (error_packet id) m = if is_sent m.state then failed else m.state
answer (unknown_packet id) m =
    if is_active m.state
    then (if m.options.no_retry then failed else if num_packets m == 1 then sent else in_progress)
    else m.state
answer _ m = m.state

-- One message has a new state, and the others have the ones they had.
abbrev pub Sets : ℕ → Status → Sender → Sender → Type 0
Sets p st s u = (q : ℕ) → (u.heap q).state ≡ (if q == p then st else (s.heap q).state)

-- No state changes.
abbrev Same : Sender → Sender → Type 0
Same s u = (q : ℕ) → (u.heap q).state ≡ (s.heap q).state

Same-Sets : (p : ℕ) (s u : Sender) → Same s u → Sets p (s.heap p).state s u
Same-Sets p s u e q = elim (Bool-cases (q == p)) [
  | inl here ↦ rw here (e q ∙ ap (λ r. (s.heap r).state) ((==_iff q p).0 here))
  | inr away ↦ rw away (e q)
]

modify-Sets :
    (p : ℕ) (f : Message → Message) (s : Sender) → Sets p (f (s.heap p)).state s (modify p f s)
modify-Sets p f s q = elim (Bool-cases (q == p)) [
  | inl here ↦ rw here (ap (λ r. (f (s.heap r)).state) ((==_iff q p).0 here))
  | inr away ↦ rw away refl
]

modify-Same :
    (p : ℕ) (f : Message → Message) (s : Sender)
    → ((m : Message) → (f m).state ≡ m.state)
    → Same s (modify p f s)
modify-Same p f s e q = elim (Bool-cases (q == p)) [
  | inl here ↦ rw here (e (s.heap q))
  | inr away ↦ rw away refl
]

grant-Same : (p limit priority : ℕ) (s : Sender) → Same s (grant p limit priority s)
unfolding grant
grant-Same p limit priority s = elim (Bool-cases (ltb (s.heap p).info.packets_granted limit)) [
  | inl e ↦ rw e (
      modify-Same p
        (λ m. record m { info = record (m.info) { packets_granted = limit; priority = priority } })
        s (λ m. refl))
  | inr e ↦ rw e (λ q. refl)
]

resend_range-Same :
    (p ip priority i n : ℕ) (s t : Sender) → Same s t → Same s (resend_range p ip priority i n t)
unfolding resend_range
resend_range-Same p ip priority i zero s t a = a
resend_range-Same p ip priority i (suc n) s t a =
    resend_range-Same p ip priority (i + 1) n s (output (data_output p i ip priority) t)
      (unfold output in a)

resend-Same : (b p : ℕ) (h : ResendHeader) (s : Sender) → Same s (resend b p h s)
unfolding resend set_timeouts answer_resend output
resend-Same b p h s = elim (Bool-cases (ltb (num_packets (s.heap p)) 2)) [
  | inl e ↦ rw e (λ q. refl)
  | inr e ↦
      elim (Bool-cases
        (leb (num_packets (s.heap p)) h.index || ltb (num_packets (s.heap p)) (h.index + h.num))) [
          | inl out ↦ rw (e, out) (λ q. refl)
          | inr within ↦
              rw (e, within)
                (answered (grant p (h.index + h.num) h.priority (set_timeouts b p s))
                  (grant-Same p (h.index + h.num) h.priority (set_timeouts b p s)))
        ]
]
  where
    answered : (t : Sender) → Same s t → Same s (answer_resend p h.index (h.index + h.num) t)
    answered t a = elim (Bool-cases (leb (t.heap p).info.packets_sent h.index)) [
      | inl e ↦ rw e a
      | inr e ↦ rw e (resend_range-Same p _ _ h.index _ s t a)
    ]

granted-Same : (b p : ℕ) (h : GrantHeader) (s : Sender) → Same s (granted b p h s)
unfolding granted set_timeouts
granted-Same b p h s = elim (Bool-cases (is_in_progress (s.heap p).state)) [
  | inl e ↦ rw e (grant-Same p _ h.priority (unfold set_timeouts in set_timeouts b p s))
  | inr e ↦ rw e (λ q. refl)
]

done-Sets :
    (b p : ℕ) (id : MessageId) (s : Sender)
    → Sets p (answer (done_packet id) (s.heap p)) s (done b p s)
unfolding done set_state cancel_timeouts
done-Sets b p id s = elim (Bool-cases (is_sent (s.heap p).state)) [
  | inl e ↦ rw e (modify-Sets p (λ m. record m { state = completed }) s)
  | inr e ↦ rw e (Same-Sets p s s (λ q. refl))
]

error-Sets :
    (b p : ℕ) (id : MessageId) (s : Sender)
    → Sets p (answer (error_packet id) (s.heap p)) s (error b p s)
unfolding error set_state cancel_timeouts
error-Sets b p id s = elim (Bool-cases (is_sent (s.heap p).state)) [
  | inl e ↦ rw e (modify-Sets p (λ m. record m { state = failed }) s)
  | inr e ↦ rw e (Same-Sets p s s (λ q. refl))
]

-- A message in progress is sent once more.
start_sending-Sets :
    (b p : ℕ) (policy : Unscheduled) (limit : ℕ) (s : Sender)
    → Sets p
        (if num_packets (s.heap p) == 1 then sent else (s.heap p).state)
        s
        (start_sending b p policy limit s)
unfolding start_sending send_single enqueue set_state cancel_timeouts output reset_info
start_sending-Sets b p policy limit s = elim (Bool-cases (num_packets (s.heap p) == 1)) [
  | inl one ↦ elim (Bool-cases (s.heap p).options.no_keep_alive) [
    | inl k ↦ rw (one, k) (modify-Sets p (λ m. record m { state = sent }) s)
    | inr k ↦ rw (one, k) (modify-Sets p (λ m. record m { state = sent }) s)
  ]
  | inr more ↦ rw more (
      Same-Sets p s (modify p (reset_info policy limit) s)
        (modify-Same p (reset_info policy limit) s (λ m. refl)))
]

-- The branch of `handleUnknownPacket` that sends the message once more.
module _ (b p : ℕ) (s : Sender) where
  policy : Unscheduled
  policy =
      (get_unscheduled_policy s.policy_manager (s.heap p).destination.ip
        (s.heap p).message_length).0

  limit : ℕ
  limit = unscheduled_index_limit s.config policy

  update : Message → Message
  update m = record m { packets = update_headers policy.version limit m.packets }

  renewed : Sender
  renewed = set_timeouts b p (record (modify p update (set_state in_progress p (leave_queue p s))) {
    policy_manager =
        (get_unscheduled_policy s.policy_manager (s.heap p).destination.ip
          (s.heap p).message_length).1;
  })

  renewed-Sets : Sets p in_progress s renewed
  unfolding renewed update set_state leave_queue set_timeouts
  renewed-Sets q = elim (Bool-cases (q == p)) [ inl e ↦ rw e refl | inr e ↦ rw e refl ]

  num_packets-renewed : num_packets (renewed.heap p) ≡ num_packets (s.heap p)
  unfolding renewed update set_state leave_queue set_timeouts
  num_packets-renewed = rw ==_refl (length-update_headers policy.version limit (s.heap p).packets)

  restart-Sets :
      Sets p (if num_packets (s.heap p) == 1 then sent else in_progress) s (restart b p s)
  unfolding restart renewed update limit policy
  restart-Sets q = start_sending-Sets b p policy limit renewed q ∙ elim (Bool-cases (q == p)) [
    | inl e ↦ rw (e, num_packets-renewed, renewed-Sets p, ==_refl p) refl
    | inr e ↦ rw e (renewed-Sets q ∙ rw e refl)
  ]

unknown-Sets :
    (b p : ℕ) (id : MessageId) (s : Sender)
    → Sets p (answer (unknown_packet id) (s.heap p)) s (unknown b p s)
unfolding unknown set_state cancel_timeouts leave_queue
unknown-Sets b p id s =
    elim (Bool-cases (is_in_progress (s.heap p).state || is_sent (s.heap p).state)) [
      | inr idle ↦ rw idle (Same-Sets p s s (λ q. refl))
      | inl on ↦ elim (Bool-cases (s.heap p).options.no_retry) [
        | inl give_up ↦ rw (on, give_up) (modify-Sets p (λ m. record m { state = failed }) s)
        | inr retry ↦ rw (on, retry) (restart-Sets b p s)
      ]
    ]

-- The states that messages are to have after a packet.
abbrev pub expected : Packet → Sender → ℕ → Status
expected packet s q =
    maybe (s.heap q).state (λ p. if q == p then answer packet (s.heap p) else (s.heap q).state)
      (maybe none (find_message s) (subject packet))

found_state :
    (packet : Packet) (id : MessageId) (s : Sender) (f : ℕ → Sender → Sender)
    → ((p : ℕ) → Sets p (answer packet (s.heap p)) s (f p s))
    → (q : ℕ)
    → ((maybe s (λ p. f p s) (find_message s id)).heap q).state
      ≡ maybe
          (s.heap q).state
          (λ p. if q == p then answer packet (s.heap p) else (s.heap q).state)
          (find_message s id)
found_state packet id s f sets q = elim (Option-cases (find_message s id)) [
  | inl e ↦ rw e refl
  | inr (p, e) ↦ rw e (sets p q)
]

-- After every packet, each message has the state that it is to have. The message that the packet is about,
-- if the sender knows it, is completed by DONE and has failed by ERROR, if it was sent; by UNKNOWN, if
-- it was in progress or sent, it has failed where it may not be retried, and otherwise is in progress
-- again, or sent if it has one packet. No other message changes its state, and no other packet changes
-- any.
pub handle_packet_lem :
    (packet : Packet) (s : Sender) (q : ℕ)
    → ((handle_packet packet s).heap q).state ≡ expected packet s q
unfolding handle_packet handle_grant_packet handle_done_packet handle_resend_packet
    handle_unknown_packet handle_error_packet release_packet
handle_packet_lem (grant_packet h) s =
    found_state (grant_packet h) h.id s (λ p. granted (bucket_of s h.id) p h)
      (λ p.
        Same-Sets p s (granted (bucket_of s h.id) p h s) (granted-Same (bucket_of s h.id) p h s))
handle_packet_lem (done_packet id) s =
    found_state (done_packet id) id s (λ p. done (bucket_of s id) p)
      (λ p. done-Sets (bucket_of s id) p id s)
handle_packet_lem (resend_packet h) s =
    found_state (resend_packet h) h.id s (λ p. resend (bucket_of s h.id) p h)
      (λ p. Same-Sets p s (resend (bucket_of s h.id) p h s) (resend-Same (bucket_of s h.id) p h s))
handle_packet_lem (unknown_packet id) s =
    found_state (unknown_packet id) id s (λ p. unknown (bucket_of s id) p)
      (λ p. unknown-Sets (bucket_of s id) p id s)
handle_packet_lem (error_packet id) s =
    found_state (error_packet id) id s (λ p. error (bucket_of s id) p)
      (λ p. error-Sets (bucket_of s id) p id s)
handle_packet_lem (data_packet h) s = λ q. refl
handle_packet_lem (busy_packet id) s = λ q. refl
handle_packet_lem (ping_packet id) s = λ q. refl
