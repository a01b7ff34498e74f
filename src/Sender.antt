-- ===== src/Sender.antt =====
-- src/Sender.h, src/Sender.cc: the sending half of the transport.
-- Messages live at addresses of a heap; buckets, timeouts and the send queue hold addresses. Each
-- operation maps the sender's state to the state after it, as one thread runs it; what reaches the
-- driver is recorded in `outputs`, newest first, and each packet given back to it in `released`.
pub mod Messages
pub mod Buffer
pub mod Filling
pub mod Appending
pub mod Metadata
pub mod Handlers
pub mod Transmit
pub mod Expiry
pub mod Queue
pub mod Invariant
pub mod Sending
pub mod Srpt
pub mod Pump
pub mod Progress
pub mod Running
pub mod Timeouts
pub mod Pings
pub mod Packets
pub mod States
pub mod Sends
pub mod Awake
pub mod Operations
pub mod Races
pub mod Limits
pub mod Tests
mod RaceTests
use homa.Base.{
  ℕ, suc, ◌+◌, Bool, true, false, Option, none, some, List, [], ◌∷◌, ◌==◌, if◌then◌else◌, length,
}
use homa.Protocol.{MessageId, id_eq, bucket_index, DataHeader, Packet}
use homa.Timeout.{TimeoutManager, set_timeout, cancel_timeout}
use homa.Timeout
use homa.Policy.{Manager}
use homa.Intrusive.{remove}

-- `OutMessage::Status`
pub data Status : Type 0 where
  not_started in_progress canceled sent completed failed : Status

abbrev pub is_in_progress : Status → Bool
is_in_progress s = elim s [ in_progress ↦ true | _ ↦ false ]

abbrev pub is_sent : Status → Bool
is_sent s = elim s [ sent ↦ true | _ ↦ false ]

abbrev pub is_completed : Status → Bool
is_completed s = elim s [ completed ↦ true | _ ↦ false ]

abbrev pub is_failed : Status → Bool
is_failed s = elim s [ failed ↦ true | _ ↦ false ]

-- `OutMessage::Options`, a set of two flags
pub record Options : Type 0 where
  pub no_retry : Bool
  pub no_keep_alive : Bool

pub record SocketAddress : Type 0 where
  pub ip : ℕ
  pub port : ℕ

-- A packet of a message: its header, and `length`, which counts header and data.
pub record DataPacket : Type 0 where
  pub header : DataHeader
  pub length : ℕ

-- `Sender::QueuedMessageInfo`; its `packets` is the message that it stands in.
pub record QueuedMessageInfo : Type 0 where
  pub id : MessageId
  pub destination : SocketAddress
  pub unsent_bytes : ℕ
  pub packets_granted : ℕ
  pub priority : ℕ
  pub packets_sent : ℕ

-- `Sender::Message`; `packets` holds the occupied packets, which lie at the indexes from 0 on, and
-- its length is `numPackets`.
pub record Message : Type 0 where
  pub id : MessageId
  pub source_port : ℕ
  pub destination : SocketAddress
  pub options : Options
  pub held : Bool
  pub message_length : ℕ
  pub packets : List DataPacket
  pub state : Status
  pub info : QueuedMessageInfo

abbrev pub num_packets : Message → ℕ
num_packets m = length m.packets

-- `Sender::MessageBucket`
pub record MessageBucket : Type 0 where
  pub messages : List ℕ
  pub message_timeouts : TimeoutManager
  pub ping_timeouts : TimeoutManager

-- What is handed to the driver: a data packet (of the message at an address, at an index), or a
-- control packet of `ControlPacket::send`.
pub data Output : Type 0 where
  data_output : (address index ip priority : ℕ) → Output
  control_output : (ip : ℕ) → Packet → Output

-- What the sender is given: its identifier, the bytes of data in a full packet, the byte limit of the
-- driver's queue, `std::hash<uint64_t>`, and the readings of the cycle counter in their order.
pub record Config : Type 0 where
  pub transport_id : ℕ
  pub packet_data_length : ℕ
  pub driver_queued_byte_limit : ℕ
  pub hash : ℕ → ℕ
  pub rdtsc : ℕ → ℕ

-- `Sender`. `reads` counts the readings of the cycle counter so far.
pub record Sender : Type 0 where
  pub config : Config
  pub policy_manager : Manager
  pub next_message_sequence_number : ℕ
  pub buckets : ℕ → MessageBucket
  pub send_queue : List ℕ
  pub send_ready : Bool
  pub next_bucket_index : ℕ
  pub heap : ℕ → Message
  pub allocated : ℕ → Bool
  pub reads : ℕ
  pub outputs : List Output
  pub released : ℕ

-- The bucket of a message.
abbrev pub bucket_of : Sender → MessageId → ℕ
bucket_of s id = bucket_index s.config.hash id

-- The loop of `MessageBucket::findMessage`.
unfoldable pub find_in : (ℕ → Message) → MessageId → List ℕ → Option ℕ
find_in heap id [] = none
find_in heap id (p ∷ ps) =
    let rest = find_in heap id ps in if id_eq (heap p).id id then some p else rest

-- `MessageBucket::findMessage`, in the bucket that `getBucket` picks.
unfoldable pub find_message : Sender → MessageId → Option ℕ
find_message s id = find_in s.heap id (s.buckets (bucket_of s id)).messages

-- A write to the object at an address.
abbrev pub modify : ℕ → (Message → Message) → Sender → Sender
modify p f s = record s { heap = λ q. if q == p then f (s.heap q) else s.heap q }

-- A write to a bucket.
abbrev pub modify_bucket : ℕ → (MessageBucket → MessageBucket) → Sender → Sender
modify_bucket b f s = record s { buckets = λ i. if i == b then f (s.buckets i) else s.buckets i }

-- `message->state.store`
unfoldable pub set_state : Status → ℕ → Sender → Sender
set_state st p s = modify p (λ m. record m { state = st }) s

-- Both timeouts of a message are set; each call reads the cycle counter.
unfoldable pub set_timeouts : ℕ → ℕ → Sender → Sender
set_timeouts b p s =
    let now = s.config.rdtsc s.reads in
    let later = s.config.rdtsc (s.reads + 1) in
    record (modify_bucket b
      (λ k. record k {
        message_timeouts = set_timeout now p k.message_timeouts;
        ping_timeouts = set_timeout later p k.ping_timeouts;
      })
      s) { reads = s.reads + 2 }

-- Both timeouts of a message are cancelled.
unfoldable pub cancel_timeouts : ℕ → ℕ → Sender → Sender
cancel_timeouts b p s =
    modify_bucket b
      (λ k. record k {
        message_timeouts = cancel_timeout p k.message_timeouts;
        ping_timeouts = cancel_timeout p k.ping_timeouts;
      })
      s

-- `driver->releasePackets(&packet, 1)` for the packet that a handler was given.
unfoldable pub release_packet : Sender → Sender
release_packet s = record s { released = suc s.released }

-- `driver->sendPacket` and `ControlPacket::send`
unfoldable pub output : Output → Sender → Sender
output o s = record s { outputs = o ∷ s.outputs }

-- `sendQueue.remove` of a message's node
unfoldable pub dequeue : ℕ → Sender → Sender
dequeue p s = record s { send_queue = remove p s.send_queue }

-- The constructor; the driver's payload size enters through the configuration.
unfoldable pub make_sender : Config → Manager → (ℕ → Message) → ℕ → ℕ → Sender
make_sender c policy memory message_timeout ping_interval = record {
  config = c;
  policy_manager = policy;
  next_message_sequence_number = 1;
  buckets = λ _. record {
    messages = [];
    message_timeouts = Timeout.make_manager message_timeout;
    ping_timeouts = Timeout.make_manager ping_interval;
  };
  send_queue = [];
  send_ready = false;
  next_bucket_index = 0;
  heap = memory;
  allocated = λ _. false;
  reads = 0;
  outputs = [];
  released = 0;
}
