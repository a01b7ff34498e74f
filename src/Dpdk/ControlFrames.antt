-- ===== src/Dpdk/ControlFrames.antt =====
-- A control packet on the wire: the header that `ControlPacket::send` constructs, in the frame of the
-- DPDK driver.
use homa.Base.{
  ltb, ℕ, ◌+◌, ◌-◌, ◌^◌, ◌≤◌, ◌<◌, ◌≡◌, refl, ap, ◌∙◌, Bool, true, false, some, arith, ==_refl,
}
use homa.Protocol as HomaProtocol
use homa.Protocol.Wire.{write_header, read_header, header_size}
use homa.Protocol.RoundTrip.{Fits, read_header_prefix}
use homa.Dpdk.{packet_hdr_len, BufRef, mbuf, overflow_buf, Packet, Driver, set_packet}
use homa.Dpdk.Receiving.{accept}
use homa.Dpdk.Sending.{Answers, send_packet}
use homa.Dpdk.Control.{at_offset, construct_header, fill_packet}
use homa.Dpdk.Frames.{carrier, bytes_of, IsPrepared, sent_frame}

at_offset_lem :
    (n : ℕ) (f : (ℕ → ℕ) → ℕ → ℕ) (bytes : ℕ → ℕ) (i : ℕ)
    → at_offset n f bytes (n + i) ≡ f (λ j. bytes (n + j)) i
at_offset_lem n f bytes i =
    let behind : ltb (n + i) n ≡ false = ground arith in
    let back : n + i - n ≡ i = omega arith in rw (behind, back) refl

constructed :
    (h : HomaProtocol.Packet) (b : BufRef) (payload i : ℕ) (d : Driver)
    → bytes_of (construct_header h b payload d) b (payload + i)
      ≡ write_header h (λ j. bytes_of d b (payload + j)) i
unfolding construct_header
constructed h (mbuf m) payload i d =
    rw (==_refl m, bytes_of) (at_offset_lem payload (write_header h) (d.mbufs m).bytes i)
constructed h (overflow_buf o) payload i d =
    rw (==_refl o, bytes_of) (at_offset_lem payload (write_header h) (d.overflow_buffers o) i)

bytes_of-set_packet :
    (p : ℕ) (packet : Packet) (d : Driver) (b : BufRef) (i : ℕ)
    → bytes_of (set_packet p packet d) b i ≡ bytes_of d b i
bytes_of-set_packet p packet d (mbuf m) i = refl
bytes_of-set_packet p packet d (overflow_buf o) i = refl

construct_header-packets :
    (h : HomaProtocol.Packet) (b : BufRef) (payload : ℕ) (d : Driver)
    → ((construct_header h b payload d).packets ≡ d.packets)
      × ((construct_header h b payload d).arp_table ≡ d.arp_table)
      × ((construct_header h b payload d).local_ip ≡ d.local_ip)
      × ((construct_header h b payload d).local_mac ≡ d.local_mac)
unfolding construct_header
construct_header-packets h (mbuf m) payload d = (refl, refl, refl, refl)
construct_header-packets h (overflow_buf o) payload d = (refl, refl, refl, refl)

-- A control packet with a header whose fields fit their widths, that is filled and sent by the DPDK
-- driver to an address of the table: the frame in the mbuf that carries it is accepted by a driver that
-- receives it, with the sender's address and the header's size as its length, and the payload is read
-- as the header that was sent. (The packet is as `allocPacket` returns it, the addresses fit their
-- widths, and the mbuf is one segment and can be trimmed.)
pub control_frame :
    (k : Answers) (p destination priority : ℕ) (d : Driver) (hw : Bool) (h : HomaProtocol.Packet)
    {mac m : ℕ}
    → Fits h
    → d.arp_table destination ≡ some mac
    → k.does_trim ≡ true
    → IsPrepared (fill_packet h p d) ((fill_packet h p d).packets p)
    → ((fill_packet h p d).mbufs m).nb_segs ≤ 1
    → d.local_ip < 2 ^ 32
    → d.local_mac < 2 ^ 48
    → mac < 2 ^ 48
    → carrier k (d.packets p).buffer ≡ some m
    → let f = (send_packet k p destination priority (fill_packet h p d)).mbufs m in
      (accept hw f
        ≡ some (record { source = d.local_ip; payload = packet_hdr_len; length = header_size h }))
      × (read_header (λ i. f.bytes (packet_hdr_len + i)) ≡ some h)
unfolding fill_packet
control_frame k p destination priority d hw h {mac} {m} fits route trim prepared one ip_fits
      local_fits mac_fits c =
    let b = (d.packets p).buffer in
    let payload = (d.packets p).payload in
    let (same_packets, same_arp, same_ip, same_mac) = construct_header-packets h b payload d in
    let e = fill_packet h p d in
    let filled : e.packets p ≡ record (d.packets p) { length = header_size h } =
      rw (==_refl p, same_packets) refl in
    let sent =
      sent_frame k p destination priority e hw {mac = mac} {m = m}
        (ap (λ t. t destination) same_arp ∙ route) trim prepared one
        (omega (arith, same_ip, ip_fits)) (omega (arith, same_mac, local_fits)) mac_fits
        (ap (λ q. carrier k q.buffer) filled ∙ c) in
    (
      sent.0 ∙ rw (same_ip, ap (λ q. q.length) filled) refl,
      read_header_prefix h (λ j. bytes_of d b (payload + j)) _ fits
          (λ i lt.
            sent.1 i (omega (arith, lt, ap (λ q. q.length) filled))
            ∙ ap (λ q. bytes_of e q.buffer (q.payload + i)) filled
            ∙ bytes_of-set_packet p
                (record ((construct_header h b payload d).packets p) { length = header_size h })
                (construct_header h b payload d) b (payload + i)
            ∙ constructed h b payload i d),
    )
