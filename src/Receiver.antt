-- ===== src/Receiver.antt =====
-- src/Receiver.h, src/Receiver.cc: the receiving half of the transport.
-- As in the sender, messages live at addresses of a heap. A peer is its IP address, and the peer table
-- maps it to the list of its scheduled messages. Packets handed to the driver are recorded in
-- `outputs`, newest first; `released` counts the packets given back to it. A condition of `assert` is
-- taken to hold.
pub mod Messages
pub mod Reading
pub mod Keeping
pub mod Completion
pub mod Arrival
pub mod Creation
pub mod Schedule
pub mod Handlers
pub mod Grants
pub mod Expiry
pub mod Ranges
pub mod Order
pub mod Peers
pub mod Ordered
pub mod Timeouts
pub mod Resends
pub mod Granting
pub mod Turns
pub mod Limits
pub mod Tests
use homa.Base.{
  ℕ, ◌+◌, Bool, true, false, Option, none, some, List, [], ◌∷◌, ◌==◌, if◌then◌else◌, length,
}
use homa.Protocol.{MessageId, id_eq, bucket_index, Packet}
use homa.Timeout.{TimeoutManager, set_timeout, cancel_timeout}
use homa.Timeout
use homa.Policy.{Manager}

-- `Receiver::Message::State`
pub data State : Type 0 where
  in_progress completed dropped : State

abbrev pub is_in_progress : State → Bool
is_in_progress s = elim s [ in_progress ↦ true | _ ↦ false ]

pub record SocketAddress : Type 0 where
  pub ip : ℕ
  pub port : ℕ

-- A packet of the driver: its length, and its payload by offset, which starts with the header.
pub record DriverPacket : Type 0 where
  pub length : ℕ
  pub payload : ℕ → ℕ

-- `Receiver::ScheduledMessageInfo`; `peer` is the address of the peer that holds the message.
pub record ScheduledMessageInfo : Type 0 where
  pub message_length : ℕ
  pub bytes_remaining : ℕ
  pub bytes_granted : ℕ
  pub priority : ℕ
  pub peer : Option ℕ

-- `Receiver::Message`; an entry of `packets` is `none` where its bit of `occupied` is not set.
pub record Message : Type 0 where
  pub id : MessageId
  pub source : SocketAddress
  pub transport_header_length : ℕ
  pub packet_data_length : ℕ
  pub num_expected_packets : ℕ
  pub num_unscheduled_packets : ℕ
  pub scheduled : Bool
  pub start : ℕ
  pub message_length : ℕ
  pub num_packets : ℕ
  pub packets : ℕ → Option DriverPacket
  pub state : State
  pub info : ScheduledMessageInfo

-- `MAX_MESSAGE_PACKETS`
abbrev pub max_message_packets : ℕ
max_message_packets = 1024

-- `Receiver::MessageBucket`
pub record MessageBucket : Type 0 where
  pub messages : List ℕ
  pub message_timeouts : TimeoutManager
  pub resend_timeouts : TimeoutManager

-- What the receiver is given: the driver's payload size, `std::hash<uint64_t>`, and the readings of
-- the cycle counter in their order.
pub record Config : Type 0 where
  pub max_payload_size : ℕ
  pub hash : ℕ → ℕ
  pub rdtsc : ℕ → ℕ

-- A control packet and where it goes.
pub record Output : Type 0 where
  pub ip : ℕ
  pub packet : Packet

-- `Receiver`
pub record Receiver : Type 0 where
  pub config : Config
  pub policy_manager : Manager
  pub buckets : ℕ → MessageBucket
  pub peer_table : ℕ → List ℕ
  pub scheduled_peers : List ℕ
  pub received_messages : List ℕ
  pub granting : Bool
  pub next_bucket_index : ℕ
  pub heap : ℕ → Message
  pub allocated : ℕ → Bool
  pub reads : ℕ
  pub outputs : List Output
  pub released : ℕ

-- The constructor
unfoldable pub make_receiver : Config → Manager → (ℕ → Message) → ℕ → ℕ → Receiver
make_receiver c policy memory message_timeout resend_interval = record {
  config = c;
  policy_manager = policy;
  buckets = λ _. record {
    messages = [];
    message_timeouts = Timeout.make_manager message_timeout;
    resend_timeouts = Timeout.make_manager resend_interval;
  };
  peer_table = λ _. [];
  scheduled_peers = [];
  received_messages = [];
  granting = false;
  next_bucket_index = 0;
  heap = memory;
  allocated = λ _. false;
  reads = 0;
  outputs = [];
  released = 0;
}

-- The bucket of a message.
abbrev pub bucket_of : Receiver → MessageId → ℕ
bucket_of s id = bucket_index s.config.hash id

-- The loop of `MessageBucket::findMessage`.
unfoldable pub find_in : (ℕ → Message) → MessageId → List ℕ → Option ℕ
find_in heap id [] = none
find_in heap id (p ∷ ps) =
    let rest = find_in heap id ps in if id_eq (heap p).id id then some p else rest

-- `MessageBucket::findMessage`, in the bucket that `getBucket` picks.
unfoldable pub find_message : Receiver → MessageId → Option ℕ
find_message s id = find_in s.heap id (s.buckets (bucket_of s id)).messages

-- A write to the object at an address.
abbrev pub modify : ℕ → (Message → Message) → Receiver → Receiver
modify p f s = record s { heap = λ q. if q == p then f (s.heap q) else s.heap q }

-- A write to the scheduling information of a message.
abbrev pub modify_info : ℕ → (ScheduledMessageInfo → ScheduledMessageInfo) → Receiver → Receiver
modify_info p f s = modify p (λ m. record m { info = f m.info }) s

-- A write to a bucket.
abbrev pub modify_bucket : ℕ → (MessageBucket → MessageBucket) → Receiver → Receiver
modify_bucket b f s = record s { buckets = λ i. if i == b then f (s.buckets i) else s.buckets i }

-- `messageTimeouts.setTimeout`
unfoldable pub set_message_timeout : ℕ → ℕ → Receiver → Receiver
set_message_timeout b p s =
    record (modify_bucket b
      (λ k. record k {
        message_timeouts = set_timeout (s.config.rdtsc s.reads) p k.message_timeouts;
      })
      s) { reads = s.reads + 1 }

-- `resendTimeouts.setTimeout`
unfoldable pub set_resend_timeout : ℕ → ℕ → Receiver → Receiver
set_resend_timeout b p s =
    record (modify_bucket b
      (λ k. record k { resend_timeouts = set_timeout (s.config.rdtsc s.reads) p k.resend_timeouts })
      s) { reads = s.reads + 1 }

-- `messageTimeouts.cancelTimeout`
unfoldable pub cancel_message_timeout : ℕ → ℕ → Receiver → Receiver
cancel_message_timeout b p s =
    modify_bucket b (λ k. record k { message_timeouts = cancel_timeout p k.message_timeouts }) s

-- `resendTimeouts.cancelTimeout`
unfoldable pub cancel_resend_timeout : ℕ → ℕ → Receiver → Receiver
cancel_resend_timeout b p s =
    modify_bucket b (λ k. record k { resend_timeouts = cancel_timeout p k.resend_timeouts }) s

-- `ControlPacket::send`
unfoldable pub output : ℕ → Packet → Receiver → Receiver
output ip packet s = record s { outputs = (record { ip = ip; packet = packet }) ∷ s.outputs }

-- `driver->releasePackets` of so many packets
unfoldable pub release_packets : ℕ → Receiver → Receiver
release_packets n s = record s { released = s.released + n }
