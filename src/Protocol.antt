-- ===== src/Protocol.antt =====
-- src/Protocol.h: message identifiers and the headers of the eight kinds of packet.
-- A header is the record of its fields after the constructor has run; ports are in host order.
pub mod Laws
pub mod Wire
pub mod RoundTrip
mod Tests
use homa.Base.{ℕ, ◌+◌, ◌*◌, ◌%◌, ◌^◌, Bool, ◌&&◌, ◌||◌, ltb, ◌==◌}
use Prim.Native.Nat.{bit_xor}

-- `Protocol::MessageId`
pub record MessageId : Type 0 where
  pub transport_id : ℕ
  pub sequence : ℕ

-- `MessageId::operator<`
unfoldable pub id_lt : MessageId → MessageId → Bool
id_lt a b =
    ltb a.transport_id b.transport_id
    || (a.transport_id == b.transport_id && ltb a.sequence b.sequence)

-- `MessageId::operator==`
unfoldable pub id_eq : MessageId → MessageId → Bool
id_eq a b = a.transport_id == b.transport_id && a.sequence == b.sequence

-- `MessageId::Hasher`; `hash` is `std::hash<uint64_t>`.
unfoldable pub hash_id : (ℕ → ℕ) → MessageId → ℕ
hash_id hash id = bit_xor (hash id.transport_id) ((2 * hash id.sequence) % 2 ^ 64)

-- The index of a bucket: the hash `& HASH_KEY_MASK`, the low eight bits of it.
-- (`MessageBucketMap::getBucket` of the sender and of the receiver.)
unfoldable pub bucket_index : (ℕ → ℕ) → MessageId → ℕ
bucket_index hash id = hash_id hash id % 256

-- `Packet::DataHeader`
pub record DataHeader : Type 0 where
  pub sport : ℕ
  pub dport : ℕ
  pub id : MessageId
  pub total_length : ℕ
  pub policy_version : ℕ
  pub unscheduled_index_limit : ℕ
  pub index : ℕ

-- `Packet::GrantHeader`
pub record GrantHeader : Type 0 where
  pub id : MessageId
  pub byte_limit : ℕ
  pub priority : ℕ

-- `Packet::ResendHeader`
pub record ResendHeader : Type 0 where
  pub id : MessageId
  pub index : ℕ
  pub num : ℕ
  pub priority : ℕ

-- `sizeof(Protocol::Packet::DataHeader)`: the packed fields.
abbrev pub data_header_size : ℕ
data_header_size = (2 + 2 + 1) + 1 + (8 + 8) + 4 + 1 + 2 + 2

-- The packets of the protocol, by `Packet::Opcode`.
pub data Packet : Type 0 where
  data_packet : DataHeader → Packet
  grant_packet : GrantHeader → Packet
  done_packet : MessageId → Packet
  resend_packet : ResendHeader → Packet
  busy_packet : MessageId → Packet
  ping_packet : MessageId → Packet
  unknown_packet : MessageId → Packet
  error_packet : MessageId → Packet

-- `Packet::Opcode`
unfoldable pub opcode : Packet → ℕ
opcode (data_packet h) = 21
opcode (grant_packet h) = 22
opcode (done_packet id) = 23
opcode (resend_packet h) = 24
opcode (busy_packet id) = 25
opcode (ping_packet id) = 26
opcode (unknown_packet id) = 27
opcode (error_packet id) = 28
