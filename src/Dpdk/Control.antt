-- ===== src/Dpdk/Control.antt =====
-- src/ControlPacket.h: `send`, with the DPDK driver. The performance counter is left out.
use homa.Base.{ℕ, ◌+◌, ◌-◌, Bool, Option, ltb, ◌==◌, if◌then◌else◌}
use homa.Protocol as HomaProtocol
use homa.Protocol.Wire.{Payload, write_header, header_size}
use homa.Dpdk.{
  BufRef, mbuf, overflow_buf, Driver, set_packet, set_mbuf, alloc_packet, release_packet,
}
use homa.Dpdk.Sending.{Answers, send_packet}

-- Bytes that are changed from an offset on.
abbrev pub at_offset : ℕ → (Payload → Payload) → Payload → Payload
at_offset n f bytes i = if ltb i n then bytes i else f (λ j. bytes (n + j)) (i - n)

-- `new (packet->payload) PacketHeaderType(...)`
unfoldable pub construct_header : HomaProtocol.Packet → BufRef → (payload : ℕ) → Driver → Driver
construct_header h (mbuf m) payload d =
    set_mbuf m (record (d.mbufs m) { bytes = at_offset payload (write_header h) (d.mbufs m).bytes })
      d
construct_header h (overflow_buf o) payload d = record d {
  overflow_buffers = λ q.
      if q == o
      then at_offset payload (write_header h) (d.overflow_buffers o)
      else d.overflow_buffers q;
}

-- The header in the packet, and its length.
unfoldable pub fill_packet : HomaProtocol.Packet → ℕ → Driver → Driver
fill_packet h p d =
    let packet = d.packets p in
    let d' = construct_header h packet.buffer packet.payload d in
    set_packet p (record (d'.packets p) { length = header_size h }) d'

-- `ControlPacket::send`; `alloc`, `append`, `fresh_buffer` and `fresh` are as for `alloc_packet`, and
-- `priority` is what `getHighestPacketPriority` answers.
unfoldable pub send :
    Answers
    → (alloc : Option ℕ) (append : Bool) (fresh_buffer fresh : ℕ) → (address priority : ℕ)
    → HomaProtocol.Packet
    → Driver
    → Driver
send k alloc append fresh_buffer fresh address priority h d =
    let (p, d') = alloc_packet alloc append fresh_buffer fresh d in
    release_packet p (send_packet k p address priority (fill_packet h p d'))
