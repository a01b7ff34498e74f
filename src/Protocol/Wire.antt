-- ===== src/Protocol/Wire.antt =====
-- src/Protocol.h: the packed headers as bytes of a payload, on a little-endian host.
-- A payload is its bytes by offset. A field is stored with its least significant byte first; the ports
-- of DATA go through `htobe16` and `be16toh`. A header that a packet does not have room for is read all
-- the same, as the casts of the code do.
use homa.Base.{
  ℕ, zero, suc, ◌+◌, ◌*◌, ◌/◌, ◌%◌, Option, none, some, List, [], ◌∷◌, ◌==◌, if◌then◌else◌,
}
use homa.Protocol.{
  MessageId, DataHeader, GrantHeader, ResendHeader, Packet, data_packet, grant_packet, done_packet,
  resend_packet, busy_packet, ping_packet, unknown_packet, error_packet, data_header_size,
}

abbrev pub Payload : Type 0
Payload = ℕ → ℕ

-- An unsigned integer of so many bytes at an offset.
unfoldable pub load : Payload → (offset width : ℕ) → ℕ
load p offset zero = 0
load p offset (suc w) = p offset + 256 * load p (offset + 1) w

unfoldable pub store : Payload → (offset width value : ℕ) → Payload
store p offset zero value = p
store p offset (suc w) value =
    store (λ i. if i == offset then value % 256 else p i) (offset + 1) w (value / 256)

-- `htobe16` and `be16toh`
unfoldable pub swap16 : ℕ → ℕ
swap16 x = x % 256 * 256 + x / 256 % 256

-- A field of a packed struct.
pub record Field : Type 0 where
  pub offset : ℕ
  pub width : ℕ
  pub value : ℕ

abbrev pub field : (offset width value : ℕ) → Field
field offset width value = record { offset = offset; width = width; value = value }

-- The fields are stored one after the other.
unfoldable pub store_fields : List Field → Payload → Payload
store_fields [] p = p
store_fields (f ∷ fs) p = store_fields fs (store p f.offset f.width f.value)

-- `CommonHeader`: the prefix with its ports as they are stored, version 1, opcode and identifier.
abbrev pub common_fields : (sport dport code : ℕ) → MessageId → List Field → List Field
common_fields sport dport code id rest =
    field 0 2 sport
    ∷ field 2 2 dport
    ∷ field 4 1 1
    ∷ field 5 1 code
    ∷ field 6 8 id.transport_id
    ∷ field 14 8 id.sequence
    ∷ rest

-- The fields of each header, as its constructor fills them.
unfoldable pub header_fields : Packet → List Field
header_fields (data_packet h) = common_fields (swap16 h.sport) (swap16 h.dport) 21 h.id (
    field 22 4 h.total_length
    ∷ field 26 1 h.policy_version
    ∷ field 27 2 h.unscheduled_index_limit
    ∷ field 29 2 h.index
    ∷ [])
header_fields (grant_packet h) =
    common_fields 0 0 22 h.id (field 22 4 h.byte_limit ∷ field 26 1 h.priority ∷ [])
header_fields (done_packet id) = common_fields 0 0 23 id []
header_fields (resend_packet h) =
    common_fields 0 0 24 h.id (field 22 2 h.index ∷ field 24 2 h.num ∷ field 26 1 h.priority ∷ [])
header_fields (busy_packet id) = common_fields 0 0 25 id []
header_fields (ping_packet id) = common_fields 0 0 26 id []
header_fields (unknown_packet id) = common_fields 0 0 27 id []
header_fields (error_packet id) = common_fields 0 0 28 id []

-- Constructing a header in place, `new (packet->payload) Header(...)`.
unfoldable pub write_header : Packet → Payload → Payload
write_header h = store_fields (header_fields h)

-- `sizeof` of each header
unfoldable pub header_size : Packet → ℕ
header_size (data_packet h) = data_header_size
header_size (grant_packet h) = 27
header_size (resend_packet h) = 27
header_size _ = 22

-- `common.messageId`
abbrev pub read_id : Payload → MessageId
read_id p = record { transport_id = load p 6 8; sequence = load p 14 8 }

-- A payload cast to each header, with the ports of DATA in host order.
abbrev pub read_data : Payload → DataHeader
read_data p = record {
  sport = swap16 (load p 0 2);
  dport = swap16 (load p 2 2);
  id = read_id p;
  total_length = load p 22 4;
  policy_version = load p 26 1;
  unscheduled_index_limit = load p 27 2;
  index = load p 29 2;
}

abbrev pub read_grant : Payload → GrantHeader
read_grant p = record { id = read_id p; byte_limit = load p 22 4; priority = load p 26 1 }

abbrev pub read_resend : Payload → ResendHeader
read_resend p = record {
  id = read_id p;
  index = load p 22 2;
  num = load p 24 2;
  priority = load p 26 1;
}

-- The header that an opcode announces, `none` for one that is none of the protocol's.
abbrev pub read_as : ℕ → Payload → Option Packet
read_as code p =
    if code == 21
    then some (data_packet (read_data p))
    else if code == 22
    then some (grant_packet (read_grant p))
    else if code == 23
    then some (done_packet (read_id p))
    else if code == 24
    then some (resend_packet (read_resend p))
    else if code == 25
    then some (busy_packet (read_id p))
    else if code == 26
    then some (ping_packet (read_id p))
    else if code == 27
    then some (unknown_packet (read_id p))
    else if code == 28
    then some (error_packet (read_id p))
    else none

-- The header of a payload, by its `common.opcode`.
unfoldable pub read_header : Payload → Option Packet
read_header p = read_as (load p 5 1) p
