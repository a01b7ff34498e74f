-- ===== src/Dpdk/Sending.antt =====
-- src/Drivers/DPDK/DpdkDriverImpl.cc: `sendPacket`.
use homa.Base.{
  ℕ, ◌+◌, ◌-◌, Bool, ◌&&◌, Option, List, [], ◌∷◌, ltb, ◌==◌, if◌then◌else◌, maybe, get_elem?,
}
use homa.Protocol.Wire.{swap16, Field, field, store_fields}
use homa.Sender.Buffer.{memcpy}
use homa.Dpdk.{
  packet_hdr_len, priority_to_pcp, homa_type, vlan_type, Mbuf, BufRef, mbuf, overflow_buf, Packet,
  pktmbuf_free, refcnt_up, ring_enqueue, tx_buffer, tx_flush, Driver, call, set_mbuf,
}

-- What DPDK answers while a packet is sent: `rte_pktmbuf_alloc`, whether `rte_pktmbuf_append` finds room,
-- `rte_mbuf_refcnt_read`, whether `rte_pktmbuf_trim` does its work (it takes bytes off the end),
-- `rte_pktmbuf_clone`, and whether `rte_ring_enqueue` finds room.
pub record Answers : Type 0 where
  pub allocation : Option ℕ
  pub has_room : Bool
  pub refcnt_read : ℕ
  pub does_trim : Bool
  pub cloned : Option ℕ
  pub ring_has_room : Bool

-- The headers before the payload: Ethernet with a VLAN tag, whose priority is the packet's, and the
-- address of the sender.
unfoldable pub frame_fields : (local_ip local_mac dest_mac priority : ℕ) → List Field
frame_fields local_ip local_mac dest_mac priority =
    field 0 6 dest_mac
    ∷ field 6 6 local_mac
    ∷ field 12 2 (swap16 vlan_type)
    ∷ field 14 2 (swap16 (maybe 0 (λ pcp. pcp) (get_elem? priority_to_pcp priority)))
    ∷ field 16 2 (swap16 homa_type)
    ∷ field (packet_hdr_len - 4) 4 local_ip
    ∷ []

-- The headers are written, and bytes behind the payload are trimmed.
unfoldable pub fill_frame :
    (trim : Bool) (local_ip local_mac dest_mac priority length : ℕ) → Mbuf → Mbuf
fill_frame trim local_ip local_mac dest_mac priority length m =
    let actual_length = packet_hdr_len + length in
    record m {
      bytes = store_fields (frame_fields local_ip local_mac dest_mac priority) m.bytes;
      pkt_len = if ltb actual_length m.pkt_len && trim then actual_length else m.pkt_len;
    }

-- A packet for the host itself goes to the loopback ring, as a clone.
unfoldable pub loop_back : Answers → Driver → Driver
loop_back k d =
    maybe d (λ c. if k.ring_has_room then call (ring_enqueue c) d else call (pktmbuf_free c) d)
      k.cloned

-- A packet for another host is added to the burst, which is flushed unless the driver is corked. An mbuf
-- that a packet holds stays in its hands.
unfoldable pub transmit : BufRef → ℕ → Driver → Driver
transmit buffer m d =
    let d₁ : Driver = elim buffer [ mbuf _ ↦ call (refcnt_up m) d | overflow_buf _ ↦ d ] in
    let d₂ : Driver = record d₁ { buffered_bytes = d.buffered_bytes + (d.mbufs m).pkt_len } in
    let d₃ = call (tx_buffer m) d₂ in if ltb d.corked 1 then call tx_flush d₃ else d₃

-- `sendPacket`, once the packet is in an mbuf: without an address in the table it is dropped.
unfoldable pub send_mbuf : Answers → Packet → ℕ → (destination priority : ℕ) → Driver → Driver
send_mbuf k packet m destination priority d =
    maybe d
      (λ dest_mac.
        let d' =
          set_mbuf m
            (fill_frame k.does_trim d.local_ip d.local_mac dest_mac priority packet.length
              (d.mbufs m))
            d in
        if d.local_mac == dest_mac then loop_back k d' else transmit packet.buffer m d')
      (d.arp_table destination)

-- A payload that is in an overflow buffer is copied to a new mbuf.
unfoldable pub copy_out : ℕ → ℕ → ℕ → Driver → Driver
copy_out m o length d =
    set_mbuf m
      (record (d.mbufs m) {
        bytes = memcpy (d.mbufs m).bytes packet_hdr_len (d.overflow_buffers o) 0 length;
        pkt_len = packet_hdr_len + length;
      })
      d

-- `sendPacket` by the buffer that holds the packet. An mbuf that is still being sent is not touched, and
-- the packet is dropped.
unfoldable pub send_buffer :
    Answers → Packet → BufRef → (destination priority : ℕ) → Driver → Driver
send_buffer k packet (mbuf m) destination priority d =
    if ltb 1 k.refcnt_read then d else send_mbuf k packet m destination priority d
send_buffer k packet (overflow_buf o) destination priority d =
    maybe d
      (λ m.
        if k.has_room
        then send_mbuf k packet m destination priority (copy_out m o packet.length d)
        else call (pktmbuf_free m) d)
      k.allocation

-- `sendPacket`
unfoldable pub send_packet : Answers → ℕ → (destination priority : ℕ) → Driver → Driver
send_packet k p destination priority d =
    send_buffer k (d.packets p) (d.packets p).buffer destination priority d
