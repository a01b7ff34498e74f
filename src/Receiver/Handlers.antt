-- ===== src/Receiver/Handlers.antt =====
-- src/Receiver.cc: the handlers of DATA, BUSY and PING packets, `receiveMessage` and `dropMessage`.
-- An incoming packet is its header and, for DATA, the driver's packet. Lengths are the `int`s that the
-- code converts them to, below 2^31.
use homa.Base.{◌+◌, ℕ, ◌-◌, true, Option, none, some, [], ◌∷◌, ltb, ◌==◌, if◌then◌else◌, maybe}
use homa.Receiver.{
  completed, is_in_progress, DriverPacket, Message, Receiver, bucket_of, find_message, modify,
  modify_info, modify_bucket, set_message_timeout, set_resend_timeout, cancel_message_timeout,
  cancel_resend_timeout, output, release_packets,
}
use homa.Protocol.{MessageId, DataHeader, GrantHeader, grant_packet, unknown_packet}
use homa.Intrusive.{remove, push_back}
use homa.Receiver.Messages.{make_message, set_packet, destroy}
use homa.Receiver.Schedule.{schedule, unschedule, update_schedule}

-- A message of which the first packet has come: the pool constructs it at the address `p`.
unfoldable pub new_message : (b p source_ip : ℕ) → DataHeader → Receiver → Receiver
new_message b p source_ip h s =
    let m =
      make_message s.config.max_payload_size h.total_length h.id
        (record { ip = source_ip; port = h.sport }) h.unscheduled_index_limit in
    let s₁ = modify p (λ _. m) s in
    let s₂ : Receiver = record s₁ { allocated = λ q. if q == p then true else s₁.allocated q } in
    let s₃ = modify_bucket b (λ k. record k { messages = push_back p k.messages }) s₂ in
    if m.scheduled then schedule p s₃ else s₃

-- The bytes of a packet that was added no longer remain. They are an `int`, which is negative for a packet
-- that is shorter than the header; no more of them come than remain, by the assertion.
unfoldable pub account : ℕ → DriverPacket → Receiver → Receiver
account p packet s =
    let m = s.heap p in
    let updated = update_schedule p (
      modify_info p
        (λ i. record i {
          bytes_remaining = i.bytes_remaining + m.transport_header_length - packet.length;
        })
        s) in
    if m.scheduled then maybe s (λ _. updated) m.info.peer else s

-- A message that holds all its packets is complete, and waits to be received.
unfoldable pub complete : ℕ → ℕ → Receiver → Receiver
complete b p s =
    let s' = cancel_resend_timeout b p (modify p (λ m. record m { state = completed }) s) in
    record s' { received_messages = push_back p s'.received_messages }

-- What follows once a packet was added to a message.
unfoldable pub added : ℕ → ℕ → DriverPacket → Receiver → Receiver
added b p packet s =
    let s' = set_message_timeout b p (account p packet s) in
    if ltb (s'.heap p).num_packets (s'.heap p).num_expected_packets
    then set_resend_timeout b p s'
    else complete b p s'

-- A packet of a known message; one that is stored already is given back.
unfoldable pub store : ℕ → ℕ → ℕ → DriverPacket → Receiver → Option Receiver
store b p index packet s =
    maybe none
      (λ r. some (if r.0 then added b p packet (modify p (λ _. r.1) s) else release_packets 1 s))
      (set_packet index packet (s.heap p))

-- `Receiver::handleDataPacket`; `p` is where a new message would be constructed, and `none` says that
-- the handler throws.
unfoldable pub handle_data_packet :
    (p source_ip : ℕ) → DataHeader → DriverPacket → Receiver → Option Receiver
handle_data_packet p source_ip h packet s =
    let b = bucket_of s h.id in
    maybe (store b p h.index packet (new_message b p source_ip h s))
      (λ q. store b q h.index packet s) (find_message s h.id)

-- `Receiver::handleBusyPacket`
unfoldable pub handle_busy_packet : MessageId → Receiver → Receiver
handle_busy_packet id s =
    let b = bucket_of s id in
    release_packets 1 (
      maybe s
        (λ p.
          let s' = set_message_timeout b p s in
          if is_in_progress (s.heap p).state then set_resend_timeout b p s' else s')
        (find_message s id))

-- The GRANT that answers a PING: what was granted last, and 0 for an unscheduled message.
unfoldable pub latest_grant : Message → GrantHeader
latest_grant m = record {
  id = m.id;
  byte_limit = if m.scheduled then m.info.bytes_granted else 0;
  priority = if m.scheduled then m.info.priority else 0;
}

-- `Receiver::handlePingPacket`
unfoldable pub handle_ping_packet : ℕ → MessageId → Receiver → Receiver
handle_ping_packet source_ip id s =
    let b = bucket_of s id in
    release_packets 1 (
      maybe (output source_ip (unknown_packet id) s)
        (λ p.
          output (s.heap p).source.ip (grant_packet (latest_grant (s.heap p)))
            (set_message_timeout b p s))
        (find_message s id))

-- `Receiver::receiveMessage`
unfoldable pub receive_message : Receiver → Option ℕ × Receiver
receive_message s = elim s.received_messages [
  | [] ↦ (none, s)
  | p ∷ ps ↦ (some p, record s { received_messages = ps })
]

-- A scheduled message that a peer holds leaves the schedule.
abbrev pub leave_schedule : ℕ → Receiver → Receiver
leave_schedule p s = if (s.heap p).scheduled then unschedule p s else s

-- A message leaves its bucket, and is destroyed.
unfoldable pub discard : ℕ → ℕ → Receiver → Receiver
discard b p s =
    destroy p
      (modify_bucket b (λ k. record k { messages = remove p k.messages }) (leave_schedule p s))

-- `Receiver::dropMessage`
unfoldable pub drop_message : ℕ → Receiver → Receiver
drop_message p s =
    let id = (s.heap p).id in
    let b = bucket_of s id in
    maybe s (λ _. discard b p (cancel_resend_timeout b p (cancel_message_timeout b p s)))
      (find_message s id)
