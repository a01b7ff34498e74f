-- ===== src/Sender/Sending.antt =====
-- Sending a message, again or for the first time, and taking it back keep the invariant.
use homa.Base.{
  ℕ, suc, ◌+◌, ◌≡◌, refl, sym, ap, ◌∙◌, inl, inr, true, false, ◌&&◌, List, [], ◌∷◌, arith, ltb,
  ◌==◌, if◌then◌else◌, ==_refl, Bool-cases, length,
}
use homa.Protocol.{MessageId}
use homa.Policy.{Unscheduled, get_unscheduled_policy}
use homa.Intrusive.{contains}
use homa.Sender.{
  in_progress, canceled, sent, failed, is_in_progress, Options, SocketAddress, DataPacket, Message,
  num_packets, Sender, bucket_of, modify, set_state, set_timeouts, cancel_timeouts, output, dequeue,
}
use homa.Sender.Messages.{
  unscheduled_index_limit, reset_info, enqueue, send_single, start_sending, write_headers, prepare,
  send_message, cancel_message, destroy, drop_message, alloc_message, make_message,
}
use homa.Sender.Handlers.{leave_queue, update_headers, restart, unknown}
use homa.Sender.Queue.{
  data_bytes, IsSized, is_active, IsHeap, IsValid, Others, Others-of_idle, Others-remove,
  Others-modify, IsHeap-of_idle, IsHeap-of_busy, IsHeap-refit,
}
use homa.Sender.Invariant.{set_state-IsValid, dequeue-set_state-IsValid}

-- Writing headers changes neither the number of packets nor their lengths.
data_bytes-update_headers :
    (version limit : ℕ) (ks : List DataPacket)
    → data_bytes (update_headers version limit ks) ≡ data_bytes ks
unfolding update_headers
data_bytes-update_headers version limit [] = refl
data_bytes-update_headers version limit (k ∷ ks) =
    omega (arith, data_bytes-update_headers version limit ks)

pub length-update_headers :
    (version limit : ℕ) (ks : List DataPacket)
    → length (update_headers version limit ks) ≡ length ks
unfolding update_headers
length-update_headers version limit [] = refl
length-update_headers version limit (k ∷ ks) = ap suc (length-update_headers version limit ks)

data_bytes-write_headers :
    (m : Message) (version limit i : ℕ) (ks : List DataPacket)
    → data_bytes (write_headers m version limit i ks) ≡ data_bytes ks
unfolding write_headers
data_bytes-write_headers m version limit i [] = refl
data_bytes-write_headers m version limit i (k ∷ ks) =
    omega (arith, data_bytes-write_headers m version limit (i + 1) ks)

length-write_headers :
    (m : Message) (version limit i : ℕ) (ks : List DataPacket)
    → length (write_headers m version limit i ks) ≡ length ks
unfolding write_headers
length-write_headers m version limit i [] = refl
length-write_headers m version limit i (k ∷ ks) =
    ap suc (length-write_headers m version limit (i + 1) ks)

-- A message in progress that is not queued yet is sent or queued.
start_sending-IsValid :
    (b p : ℕ) (policy : Unscheduled) (limit : ℕ) (s : Sender)
    → Others p s.heap s.send_queue
    → is_in_progress (s.heap p).state ≡ true
    → IsSized (s.heap p)
    → IsValid (start_sending b p policy limit s)
unfolding start_sending send_single enqueue reset_info output set_state cancel_timeouts
start_sending-IsValid b p policy limit s o busy z =
    elim (Bool-cases (num_packets (s.heap p) == 1)) [
      | inl one ↦ rw one (elim (Bool-cases (s.heap p).options.no_keep_alive) [
        | inl e ↦ rw e single
        | inr e ↦ rw e single
      ])
      | inr more ↦ rw more (
          IsHeap-of_busy s.heap p (reset_info policy limit) s.send_queue o busy
            (record {
              sent_le = omega arith;
              granted_le = omega arith;
              several = ground (arith, z.some_packet);
              unsent = z.total;
            })
            (record { total = z.total; some_packet = z.some_packet }))
    ]
  where
    single :
        IsHeap (λ q. if q == p then record (s.heap q) { state = sent } else s.heap q) s.send_queue
    single =
        IsHeap-of_idle s.heap p (λ m. record m { state = sent }) s.send_queue o refl
          (λ _. record { total = z.total; some_packet = z.some_packet })

-- What `leave_queue` leaves behind is the invariant for the other messages.
leave_queue-Others : (p : ℕ) (s : Sender) → IsValid s → Others p s.heap (leave_queue p s).send_queue
unfolding leave_queue
leave_queue-Others p s v = elim (Bool-cases (is_in_progress (s.heap p).state)) [
  | inl e ↦
      let k : (ltb 1 (num_packets (s.heap p))) ≡ true =
        ground (arith, (v.ordered.info p e).several) in
      rw (e, k) (Others-remove s.heap p _ v)
  | inr e ↦ elim (Bool-cases (ltb 1 (num_packets (s.heap p)))) [
    | inl k ↦ rw (k, e) (Others-of_idle s.heap p _ v e)
    | inr k ↦ rw k (Others-of_idle s.heap p _ v e)
  ]
]

restart-IsValid :
    (b p : ℕ) (s : Sender) → IsValid s → is_active (s.heap p).state ≡ true → IsValid (restart b p s)
unfolding restart set_state set_timeouts leave_queue
restart-IsValid b p s v a =
    start_sending-IsValid b p policy limit (set_timeouts b p rewritten)
      (Others-modify _ p update _ (
        Others-modify s.heap p (λ m. record m { state = in_progress }) _
          (leave_queue-Others p s v)))
      (rw ==_refl refl)
      (rw ==_refl (record {
        total = z.total ∙ sym (data_bytes-update_headers policy.version limit (s.heap p).packets);
        some_packet =
            omega
              (arith, z.some_packet, length-update_headers policy.version limit (s.heap p).packets);
      }))
  where
    z : IsSized (s.heap p)
    z = v.sized p a

    policy : Unscheduled
    policy =
        (get_unscheduled_policy s.policy_manager (s.heap p).destination.ip
          (s.heap p).message_length).0

    limit : ℕ
    limit = unscheduled_index_limit s.config policy

    update : Message → Message
    update m = record m { packets = update_headers policy.version limit m.packets }

    rewritten : Sender
    rewritten = record (modify p update (set_state in_progress p (leave_queue p s))) {
      policy_manager =
          (get_unscheduled_policy s.policy_manager (s.heap p).destination.ip
            (s.heap p).message_length).1;
    }

pub unknown-IsValid : (b p : ℕ) (s : Sender) → IsValid s → IsValid (unknown b p s)
unfolding unknown leave_queue
unknown-IsValid b p s v = elim (Bool-cases (is_active (s.heap p).state)) [
  | inl a ↦ rw a (elim (Bool-cases (s.heap p).options.no_retry) [
    | inl e ↦ rw e (given_up b p s v)
    | inr e ↦ rw e (restart-IsValid b p s v a)
  ])
  | inr a ↦ rw a v
]
  where
    given_up :
        (b p : ℕ) (s : Sender)
        → IsValid s
        → IsValid (set_state failed p (cancel_timeouts b p (leave_queue p s)))
    given_up b p s v =
        unfold set_state cancel_timeouts in
        IsHeap-of_idle s.heap p (λ m. record m { state = failed }) _ (leave_queue-Others p s v) refl
          (λ e. cc)

-- Sending a message that is not in progress and has the length of its data, of at least one packet,
-- keeps the invariant: it is queued in its place, or sent at once if it has one packet.
pub send_message-IsValid :
    (p : ℕ) (destination : SocketAddress) (options : Options) (s : Sender)
    → IsValid s
    → is_in_progress (s.heap p).state ≡ false
    → IsSized (s.heap p)
    → IsValid (send_message p destination options s)
unfolding send_message set_timeouts prepare
send_message-IsValid p destination options s v idle z =
    start_sending-IsValid _ p policy limit _
      (Others-modify s.heap p (prepare id destination options policy limit) _
        (Others-of_idle s.heap p _ v idle))
      (rw ==_refl refl) (rw ==_refl prepared)
  where
    id : MessageId
    id = record { transport_id = s.config.transport_id; sequence = s.next_message_sequence_number }

    policy : Unscheduled
    policy = (get_unscheduled_policy s.policy_manager destination.ip (s.heap p).message_length).0

    limit : ℕ
    limit = unscheduled_index_limit s.config policy

    prepared : IsSized (prepare id destination options policy limit (s.heap p))
    prepared = record {
      total = z.total ∙ sym (data_bytes-write_headers _ policy.version limit 0 (s.heap p).packets);
      some_packet =
          omega (
            arith,
            z.some_packet,
            length-write_headers _ policy.version limit 0 (s.heap p).packets,
          );
    }

-- Cancelling a message, in whatever state, keeps the invariant.
pub cancel_message-IsValid : (p : ℕ) (s : Sender) → IsValid s → IsValid (cancel_message p s)
unfolding cancel_message cancel_timeouts dequeue set_state
cancel_message-IsValid p s v =
    elim (Bool-cases (contains p (s.buckets (bucket_of s (s.heap p).id)).messages)) [
      | inl e ↦
          elim (Bool-cases (ltb 1 (num_packets (s.heap p)) && is_in_progress (s.heap p).state)) [
            | inl k ↦ rw (e, k) (dequeue-set_state-IsValid canceled p s v refl)
            | inr k ↦ rw (e, k) (set_state-IsValid canceled p s v (idle k) refl)
          ]
      | inr e ↦ rw e v
    ]
  where
    idle :
        (ltb 1 (num_packets (s.heap p)) && is_in_progress (s.heap p).state) ≡ false
        → is_in_progress (s.heap p).state ≡ false
    idle k = elim (Bool-cases (is_in_progress (s.heap p).state)) [
      | inl busy ↦ ground (arith, (v.ordered.info p busy).several)
      | inr e ↦ e
    ]

-- Dropping a message, in whatever state, keeps the invariant: one in progress stays queued.
pub drop_message-IsValid : (p : ℕ) (s : Sender) → IsValid s → IsValid (drop_message p s)
unfolding drop_message destroy cancel_timeouts
drop_message-IsValid p s v = elim (Bool-cases (is_in_progress (s.heap p).state)) [
  | inl e ↦ rw e held
  | inr e ↦ rw e held
]
  where
    held :
        IsHeap (λ q. if q == p then record (s.heap q) { held = false } else s.heap q) s.send_queue
    held =
        IsHeap-refit s.heap p (λ m. record m { held = false }) s.send_queue refl refl v
          (λ k. record {
            sent_le = k.sent_le;
            granted_le = k.granted_le;
            several = k.several;
            unsent = k.unsent;
          })
          (λ z. record { total = z.total; some_packet = z.some_packet })

-- Constructing a new message where none is in progress keeps the invariant.
pub alloc_message-IsValid :
    (p source_port : ℕ) (s : Sender)
    → IsValid s
    → is_in_progress (s.heap p).state ≡ false
    → IsValid (alloc_message p source_port s)
unfolding alloc_message make_message
alloc_message-IsValid p source_port s v idle =
    IsHeap-of_idle s.heap p (λ _. make_message source_port) s.send_queue
      (Others-of_idle s.heap p _ v idle) refl (λ e. cc)
