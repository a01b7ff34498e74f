-- ===== src/Receiver/Messages.antt =====
-- src/Receiver.h, src/Receiver.cc: the members of `Receiver::Message`.
-- The bits of `occupied` are read with `test`, which throws for an index of 1024 or more; a function
-- that may throw returns an option, `none` where it does.
use homa.Base.{
  ℕ, zero, suc, ◌+◌, ◌-◌, ◌/◌, ◌%◌, min, Bool, true, false, Option, none, some, List, [], ◌∷◌, ◌++◌,
  ltb, leb, ◌==◌, if◌then◌else◌, maybe,
}
use homa.Protocol.{MessageId, done_packet, error_packet, data_header_size}
use homa.Receiver.{
  in_progress, dropped, SocketAddress, DriverPacket, Message, max_message_packets, Receiver, output,
  release_packets,
}

-- The constructor
unfoldable pub make_message :
    (payload_size message_length : ℕ) → MessageId → SocketAddress → (num_unscheduled : ℕ) → Message
make_message payload_size message_length id source num_unscheduled =
    let data_length = payload_size - data_header_size in
    let expected = (message_length + data_length - 1) / data_length in
    record {
      id = id;
      source = source;
      transport_header_length = data_header_size;
      packet_data_length = data_length;
      num_expected_packets = expected;
      num_unscheduled_packets = num_unscheduled;
      scheduled = ltb num_unscheduled expected;
      start = 0;
      message_length = message_length;
      num_packets = 0;
      packets = λ _. none;
      state = in_progress;
      info = record {
        message_length = message_length;
        bytes_remaining = message_length;
        bytes_granted = 0;
        priority = 0;
        peer = none;
      };
    }

-- `occupied.test`
abbrev pub occupied : ℕ → Message → Option Bool
occupied index m =
    if ltb index max_message_packets then some (maybe false (λ _. true) (m.packets index)) else none

-- `Message::getPacket`
unfoldable pub get_packet : ℕ → Message → Option (Option DriverPacket)
get_packet index m = maybe none (λ b. some (if b then m.packets index else none)) (occupied index m)

-- `Message::setPacket`: whether the packet was stored, and the message after it.
unfoldable pub set_packet : ℕ → DriverPacket → Message → Option (Bool × Message)
set_packet index packet m =
    maybe none
      (λ b. some (
        if b then (false, m) else (
          true,
          record m {
            packets = λ i. if i == index then some packet else m.packets i;
            num_packets = m.num_packets + 1;
          },
        )))
      (occupied index m)

-- `Message::length`
unfoldable pub message_size : Message → ℕ
message_size m = m.message_length - m.start

-- `Message::strip`
unfoldable pub strip : ℕ → Message → Message
strip count m = record m { start = min (m.start + count) m.message_length }

-- `memcpy`: so many bytes of a payload from an offset on.
unfoldable pub copy : (ℕ → ℕ) → ℕ → ℕ → List ℕ
copy payload offset zero = []
copy payload offset (suc n) = payload offset ∷ copy payload (offset + 1) n

-- The loop of `Message::get`: the bytes that it copies, `left` being those that are wanted; every
-- round copies at least one byte, so that `left` rounds are enough.
unfoldable pub get_loop :
    (fuel : ℕ) → Message → (left packet_index packet_offset : ℕ) → Option (List ℕ)
get_loop zero m left packet_index packet_offset = some []
get_loop (suc fuel) m left packet_index packet_offset =
    let n = min left (m.packet_data_length - packet_offset) in
    let rest = get_loop fuel m (left - n) (packet_index + 1) 0 in
    if left == 0
    then some []
    else maybe none
        (λ found.
          maybe (some [])
            (λ packet.
              maybe none
                (λ bytes.
                  some (copy packet.payload (packet_offset + m.transport_header_length) n ++ bytes))
                rest)
            found)
        (get_packet packet_index m)

-- `Message::get`: the bytes copied to the destination.
unfoldable pub get : ℕ → ℕ → Message → Option (List ℕ)
get offset count m =
    let real_offset = offset + m.start in
    let count' = min count (m.message_length - real_offset) in
    if leb m.message_length real_offset
    then some []
    else get_loop count' m count' (real_offset / m.packet_data_length)
        (real_offset % m.packet_data_length)

-- A range of packets, as `releasePackets` and a RESEND name it.
pub record Range : Type 0 where
  pub index : ℕ
  pub num : ℕ

abbrev pub close_range : ℕ → ℕ → List Range → List Range
close_range index num ranges =
    if num == 0 then ranges else (record { index = index; num = num }) ∷ ranges

-- The maximal runs of indexes from `i` on at which a test holds, a run of `num` from `index` on
-- being open. (The loop of `checkResendTimeouts`, over the packets that are missing.)
unfoldable pub runs : (ℕ → Bool) → (n i index num : ℕ) → List Range
runs test zero i index num = close_range index num []
runs test (suc n) i index num =
    let longer = runs test n (i + 1) (if num == 0 then i else index) (num + 1) in
    let closed = runs test n (i + 1) index 0 in
    if test i then longer else close_range index num closed

-- How many packets lie in some ranges.
unfoldable pub size : List Range → ℕ
size [] = 0
size (r ∷ rs) = r.num + size rs

-- Whether a packet is stored at the index.
abbrev pub is_stored : Message → ℕ → Bool
is_stored m i = maybe false (λ _. true) (m.packets i)

-- The loop of `Message::~Message`, which ends early when all packets are found.
unfoldable pub release_loop : Message → (n i index num found : ℕ) → List Range
release_loop m zero i index num found = close_range index num []
release_loop m (suc n) i index num found =
    let longer = release_loop m n (i + 1) (if num == 0 then i else index) (num + 1) (found + 1) in
    let closed = release_loop m n (i + 1) index 0 found in
    if ltb found m.num_packets
    then if is_stored m i then longer else close_range index num closed
    else close_range index num []

-- `Message::~Message`: the ranges that are given back to the driver.
unfoldable pub released_ranges : Message → List Range
released_ranges m = release_loop m max_message_packets 0 0 0 0

-- `pool.destroy`
unfoldable pub destroy : ℕ → Receiver → Receiver
destroy p s =
    let s' = release_packets (size (released_ranges (s.heap p))) s in
    record s' { allocated = λ q. if q == p then false else s.allocated q }

-- `Message::acknowledge`
unfoldable pub acknowledge : ℕ → Receiver → Receiver
acknowledge p s = output (s.heap p).source.ip (done_packet (s.heap p).id) s

-- `Message::fail`
unfoldable pub fail : ℕ → Receiver → Receiver
fail p s = output (s.heap p).source.ip (error_packet (s.heap p).id) s

-- `Message::dropped`
unfoldable pub is_dropped : Message → Bool
is_dropped m = elim m.state [ dropped ↦ true | _ ↦ false ]
