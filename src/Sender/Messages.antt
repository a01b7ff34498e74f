-- ===== src/Sender/Messages.antt =====
-- src/Sender.cc: putting a message on its way, and the calls of the application.
use homa.Base.{
  ℕ, ◌+◌, ◌-◌, ◌/◌, ◌%◌, ◌^◌, min, Bool, true, false, ◌&&◌, List, [], ◌∷◌, ltb, ◌==◌, if◌then◌else◌,
}
use homa.Protocol.{MessageId}
use homa.Policy.{Unscheduled, get_unscheduled_policy}
use homa.Intrusive.{remove, contains, push_front, push_back, deprioritize}
use homa.Sender.{
  not_started, in_progress, canceled, sent, is_in_progress, Options, SocketAddress, DataPacket,
  Message, num_packets, data_output, Config, Sender, bucket_of, modify, modify_bucket, set_state,
  set_timeouts, cancel_timeouts, output, dequeue,
}

-- The packets that may be sent without a grant: the unscheduled byte limit in packets, rounded up.
-- `uint32_t` plus `int` is computed in 32 bits.
unfoldable pub unscheduled_index_limit : Config → Unscheduled → ℕ
unscheduled_index_limit c policy =
    ((policy.unscheduled_byte_limit + c.packet_data_length - 1) % 2 ^ 32) / c.packet_data_length

-- `ComparePriority` on addresses: fewer unsent bytes come first.
unfoldable pub compare_priority : (ℕ → Message) → ℕ → ℕ → Bool
compare_priority heap a b = ltb (heap a).info.unsent_bytes (heap b).info.unsent_bytes

-- What is reset in `queuedMessageInfo` when a message is queued. (`packetsGranted` is an `int`; the
-- limit fits it where a packet holds two bytes or more.)
unfoldable pub reset_info : Unscheduled → ℕ → Message → Message
reset_info policy limit m = record m {
  info = record (m.info) {
    unsent_bytes = m.message_length;
    packets_granted = min limit (num_packets m);
    priority = policy.priority;
    packets_sent = 0;
  };
}

-- The branch for longer messages at the end of `sendMessage` and of `handleUnknownPacket`: queue the
-- message in SRPT order.
unfoldable pub enqueue : ℕ → Unscheduled → ℕ → Sender → Sender
enqueue p policy limit s =
    let s' = modify p (reset_info policy limit) s in
    record s' {
      send_queue = deprioritize (compare_priority s'.heap) p (push_front p s'.send_queue);
      send_ready = true;
    }

-- The branch for messages of one packet: it is sent right away.
unfoldable pub send_single : ℕ → ℕ → Unscheduled → Sender → Sender
send_single b p policy s =
    let m = s.heap p in
    let s' = set_state sent p (output (data_output p 0 m.destination.ip policy.priority) s) in
    if m.options.no_keep_alive then cancel_timeouts b p s' else s'

unfoldable pub start_sending : ℕ → ℕ → Unscheduled → ℕ → Sender → Sender
start_sending b p policy limit s =
    if num_packets (s.heap p) == 1 then send_single b p policy s else enqueue p policy limit s

-- The header of the packet at index `i`, for each packet from `i` on.
unfoldable pub write_headers : Message → ℕ → ℕ → ℕ → List DataPacket → List DataPacket
write_headers m version limit i [] = []
write_headers m version limit i (packet ∷ packets) =
    record packet {
      header = record {
        sport = m.source_port;
        dport = m.destination.port;
        id = m.id;
        total_length = m.message_length % 2 ^ 32;
        policy_version = version;
        unscheduled_index_limit = limit % 2 ^ 16;
        index = i % 2 ^ 16;
      };
    }
    ∷ write_headers m version limit (i + 1) packets

-- The message as `sendMessage` prepares it.
unfoldable pub prepare : MessageId → SocketAddress → Options → Unscheduled → ℕ → Message → Message
prepare id destination options policy limit m =
    let m' : Message = record m {
      id = id;
      destination = destination;
      options = options;
      state = in_progress;
      info = record (m.info) { id = id; destination = destination };
    } in
    record m' { packets = write_headers m' policy.version limit 0 m'.packets }

-- `Sender::sendMessage`. (`queuedMessageInfo.id` and `.destination` are only read of queued messages,
-- so it does not matter that a message of one packet gets them too.)
unfoldable pub send_message : ℕ → SocketAddress → Options → Sender → Sender
send_message p destination options s =
    let id : MessageId = record {
      transport_id = s.config.transport_id;
      sequence = s.next_message_sequence_number;
    } in
    let (policy, manager) =
      get_unscheduled_policy s.policy_manager destination.ip (s.heap p).message_length in
    let limit = unscheduled_index_limit s.config policy in
    let b = bucket_of s id in
    let s' : Sender = record s {
      next_message_sequence_number = (s.next_message_sequence_number + 1) % 2 ^ 64;
      policy_manager = manager;
    } in
    start_sending b p policy limit (
      set_timeouts b p (
        modify_bucket b (λ k. record k { messages = push_back p k.messages })
          (modify p (prepare id destination options policy limit) s')))

-- `Sender::cancelMessage`
unfoldable pub cancel_message : ℕ → Sender → Sender
cancel_message p s =
    let m = s.heap p in
    let b = bucket_of s m.id in
    let s' = cancel_timeouts b p s in
    let s'' = if ltb 1 (num_packets m) && is_in_progress m.state then dequeue p s' else s' in
    if contains p (s.buckets b).messages then set_state canceled p s'' else s

-- Taking a message out of its bucket and giving it back to the pool.
unfoldable pub destroy : ℕ → ℕ → Sender → Sender
destroy b p s =
    let s' =
      modify_bucket b (λ k. record k { messages = remove p k.messages }) (cancel_timeouts b p s) in
    record s' {
      allocated = λ q. if q == p then false else s'.allocated q;
      released = s'.released + num_packets (s.heap p);
    }

-- `Sender::dropMessage`
unfoldable pub drop_message : ℕ → Sender → Sender
drop_message p s =
    let b = bucket_of s (s.heap p).id in
    let s' = modify p (λ m. record m { held = false }) s in
    if is_in_progress (s.heap p).state then s' else destroy b p s'

-- The constructor of `Sender::Message`.
unfoldable pub make_message : ℕ → Message
make_message source_port = record {
  id = record { transport_id = 0; sequence = 0 };
  source_port = source_port;
  destination = record { ip = 0; port = 0 };
  options = record { no_retry = false; no_keep_alive = false };
  held = true;
  message_length = 0;
  packets = [];
  state = not_started;
  info = record {
    id = record { transport_id = 0; sequence = 0 };
    destination = record { ip = 0; port = 0 };
    unsent_bytes = 0;
    packets_granted = 0;
    priority = 0;
    packets_sent = 0;
  };
}

-- `Sender::allocMessage`: the pool constructs a new message at the address that it chooses.
unfoldable pub alloc_message : ℕ → ℕ → Sender → Sender
alloc_message p source_port s =
    let s' = modify p (λ _. make_message source_port) s in
    record s' { allocated = λ q. if q == p then true else s'.allocated q }
