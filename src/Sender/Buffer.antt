-- ===== src/Sender/Buffer.antt =====
-- src/Sender.cc: the bytes of an outgoing message, `append`, `prepend` and `reserve`.
-- A buffer is what these members read and write of a `Sender::Message`. `memory` gives the bytes of the
-- packet that `allocPacket` returns for an index, and a source is its bytes by offset. Numbers are the
-- `int`s of the code, below 2^31; indexes stay below 1024, since the length of a message is limited.
use homa.Base.{
  ℕ, zero, suc, ◌+◌, ◌-◌, ◌*◌, ◌/◌, ◌%◌, min, ◌&&◌, Option, none, some, ltb, leb, ◌==◌,
  if◌then◌else◌, maybe,
}
use homa.Protocol.{data_header_size}
use homa.Protocol.Wire.{Payload}

-- The length and the payload of a `Driver::Packet`.
pub record OutPacket : Type 0 where
  pub length : ℕ
  pub payload : Payload

pub record Buffer : Type 0 where
  pub packet_data_length : ℕ
  pub start : ℕ
  pub message_length : ℕ
  pub num_packets : ℕ
  pub packets : ℕ → Option OutPacket

-- A new message holds no bytes.
unfoldable pub empty : ℕ → Buffer
empty packet_data_length = record {
  packet_data_length = packet_data_length;
  start = 0;
  message_length = 0;
  num_packets = 0;
  packets = λ _. none;
}

-- `PACKET_DATA_LENGTH * MAX_MESSAGE_PACKETS`
abbrev pub max_message_length : Buffer → ℕ
max_message_length b = b.packet_data_length * 1024

-- `memcpy` of so many bytes of a source, from one of its offsets on, to an offset of a payload.
unfoldable pub memcpy : Payload → (offset : ℕ) → (source : ℕ → ℕ) → (first n : ℕ) → Payload
memcpy p offset source first n i =
    if leb offset i && ltb i (offset + n) then source (first + (i - offset)) else p i

-- `Message::getOrAllocPacket`: the packet at an index, a new one being empty but for its header.
unfoldable pub get_or_alloc_packet : (ℕ → Payload) → ℕ → Buffer → OutPacket
get_or_alloc_packet memory index b =
    maybe (record { length = data_header_size; payload = memory index }) (λ p. p) (b.packets index)

-- The packet at an index is the given one; one that was not there is counted.
unfoldable pub set_packet : ℕ → OutPacket → Buffer → Buffer
set_packet index packet b = record b {
  num_packets = maybe (b.num_packets + 1) (λ _. b.num_packets) (b.packets index);
  packets = λ i. if i == index then some packet else b.packets i;
}

-- One round of `append`: so many bytes, from an offset of the source, go to an offset of a packet.
unfoldable pub append_round :
    (ℕ → Payload) → (source : ℕ → ℕ) → (n copied packet_index packet_offset : ℕ) → Buffer → Buffer
append_round memory source n copied packet_index packet_offset b =
    let packet = get_or_alloc_packet memory packet_index b in
    set_packet packet_index
      (record {
        length = packet.length + n;
        payload = memcpy packet.payload (packet_offset + data_header_size) source copied n;
      })
      b

-- The loop of `append`, with so many bytes left; every round copies at least one, so that as many
-- rounds are enough.
unfoldable pub append_loop :
    (fuel : ℕ)
    → (ℕ → Payload)
    → (source : ℕ → ℕ) → (left copied packet_index packet_offset : ℕ) → Buffer
    → Buffer
append_loop zero memory source left copied packet_index packet_offset b = b
append_loop (suc fuel) memory source left copied packet_index packet_offset b =
    let n = min left (b.packet_data_length - packet_offset) in
    let rest =
      append_loop fuel memory source (left - n) (copied + n) (packet_index + 1) 0
        (append_round memory source n copied packet_index packet_offset b) in
    if left == 0 then b else rest

-- The bytes that `append` takes of so many: those that exceed the limit are left out.
abbrev pub accepted : ℕ → Buffer → ℕ
accepted count b =
    if ltb (max_message_length b) (b.message_length + count)
    then max_message_length b - b.message_length
    else count

-- `Message::append`
unfoldable pub append : (ℕ → Payload) → (source : ℕ → ℕ) → (count : ℕ) → Buffer → Buffer
append memory source count b =
    let n = accepted count b in
    let b' =
      append_loop n memory source n 0 (b.message_length / b.packet_data_length)
        (b.message_length % b.packet_data_length) b in
    record b' { message_length = b.message_length + n }

-- One round of `prepend`, at a packet that is there.
unfoldable pub prepend_round :
    (source : ℕ → ℕ) → (n copied packet_index packet_offset : ℕ) → Buffer → Buffer
prepend_round source n copied packet_index packet_offset b =
    maybe b
      (λ packet.
        set_packet packet_index
          (record packet {
            payload = memcpy packet.payload (packet_offset + data_header_size) source copied n;
          })
          b)
      (b.packets packet_index)

-- The loop of `prepend`.
unfoldable pub prepend_loop :
    (fuel : ℕ) → (source : ℕ → ℕ) → (left copied packet_index packet_offset : ℕ) → Buffer → Buffer
prepend_loop zero source left copied packet_index packet_offset b = b
prepend_loop (suc fuel) source left copied packet_index packet_offset b =
    let n = min left (b.packet_data_length - packet_offset) in
    let rest =
      prepend_loop fuel source (left - n) (copied + n) (packet_index + 1) 0
        (prepend_round source n copied packet_index packet_offset b) in
    if left == 0 then b else rest

-- `Message::prepend`, of no more bytes than are reserved.
unfoldable pub prepend : (source : ℕ → ℕ) → (count : ℕ) → Buffer → Buffer
prepend source count b =
    let start = b.start - count in
    prepend_loop count source count 0 (start / b.packet_data_length) (start % b.packet_data_length)
      (record b { start = start })

-- One round of `reserve`.
unfoldable pub reserve_round : (ℕ → Payload) → (n packet_index : ℕ) → Buffer → Buffer
reserve_round memory n packet_index b =
    let packet = get_or_alloc_packet memory packet_index b in
    set_packet packet_index (record packet { length = packet.length + n }) b

-- The loop of `reserve`.
unfoldable pub reserve_loop :
    (fuel : ℕ) → (ℕ → Payload) → (left packet_index packet_offset : ℕ) → Buffer → Buffer
reserve_loop zero memory left packet_index packet_offset b = b
reserve_loop (suc fuel) memory left packet_index packet_offset b =
    let n = min left (b.packet_data_length - packet_offset) in
    let rest =
      reserve_loop fuel memory (left - n) (packet_index + 1) 0
        (reserve_round memory n packet_index b) in
    if left == 0 then b else rest

-- The bytes that `reserve` takes of so many.
abbrev pub reservable : ℕ → Buffer → ℕ
reservable count b =
    if ltb (max_message_length b) (b.start + count) then max_message_length b - b.start else count

-- `Message::reserve`
unfoldable pub reserve : (ℕ → Payload) → (count : ℕ) → Buffer → Buffer
reserve memory count b =
    let n = reservable count b in
    let b' =
      reserve_loop n memory n (b.start / b.packet_data_length) (b.start % b.packet_data_length) b in
    record b' { start = b.start + n; message_length = b.message_length + n }

-- `Message::length`
unfoldable pub message_size : Buffer → ℕ
message_size b = b.message_length - b.start
