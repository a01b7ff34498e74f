-- ===== src/Dpdk/Frames.antt =====
-- What `sendPacket` puts into a frame is what `receivePackets` takes out of it.
use homa.Base.{
  ℕ, ◌+◌, ◌-◌, ◌^◌, ◌≤◌, ◌<◌, ◌≡◌, refl, sym, ap, ◌∙◌, inl, inr, Bool, true, Option, none, some,
  arith, ltb, ◌==◌, ==_refl, if◌then◌else◌, maybe, get_elem?, All, Bool-cases, Option-cases,
}
use homa.Protocol.Wire.{load, swap16}
use homa.Protocol.RoundTrip.{AreLaid, fields_hold, swap16-lt, store_fields_apart}
use homa.Sender.Buffer.{memcpy}
use homa.Dpdk.{
  packet_hdr_len, priority_to_pcp, homa_type, vlan_type, Mbuf, BufRef, mbuf, overflow_buf, Packet,
  Driver, call, set_mbuf,
}
use homa.Dpdk.Sending.{
  Answers, frame_fields, fill_frame, loop_back, transmit, send_mbuf, copy_out, send_buffer,
  send_packet,
}
use homa.Dpdk.Receiving.{ether_type, accept}

-- A frame with Homa's headers is accepted, whether the hardware filters or not.
accept-homa :
    (hw : Bool) (f : Mbuf) (source : ℕ)
    → load f.bytes 12 2 ≡ swap16 vlan_type
    → load f.bytes 16 2 ≡ swap16 homa_type
    → load f.bytes 18 4 ≡ source
    → f.nb_segs ≤ 1
    → accept hw f
      ≡ some (record {
        source = source;
        payload = packet_hdr_len;
        length = f.pkt_len - packet_hdr_len;
      })
unfolding accept ether_type
accept-homa hw f source tag kind ip one =
    rw (tag, ==_refl (swap16 vlan_type), kind, ==_refl (swap16 homa_type), ip)
      (elim (Bool-cases hw) [ inl e ↦ rw e (ground arith) | inr e ↦ rw e (ground arith) ])

module _ (local_ip local_mac dest_mac priority : ℕ) (ip_fits : local_ip < 2 ^ 32)
    (local_fits : local_mac < 2 ^ 48) (dest_fits : dest_mac < 2 ^ 48) where
  fields-AreLaid : AreLaid 0 (frame_fields local_ip local_mac dest_mac priority)
  unfolding frame_fields
  fields-AreLaid = omega (
    arith,
    swap16-lt vlan_type,
    swap16-lt (maybe 0 (λ pcp. pcp) (get_elem? priority_to_pcp priority)),
    swap16-lt homa_type,
  )

  -- The headers of the frame are read back, and the bytes behind them are left alone.
  fill_frame-accept :
      (hw : Bool) (length : ℕ) (m : Mbuf)
      → m.nb_segs ≤ 1
      → packet_hdr_len + length ≤ m.pkt_len
      → accept hw (fill_frame true local_ip local_mac dest_mac priority length m)
        ≡ some (record { source = local_ip; payload = packet_hdr_len; length = length })
  unfolding fill_frame frame_fields
  fill_frame-accept hw length m one fits =
      accept-homa hw frame local_ip (held.1.1.0) (held.1.1.1.1.0) (held.1.1.1.1.1.0) one
      ∙ ap (λ n. some (record { source = local_ip; payload = packet_hdr_len; length = n })) left
    where
      frame : Mbuf
      frame = fill_frame true local_ip local_mac dest_mac priority length m

      held :
          All
            (λ f. load frame.bytes f.offset f.width ≡ f.value)
            (frame_fields local_ip local_mac dest_mac priority)
      held =
          fields_hold (frame_fields local_ip local_mac dest_mac priority) m.bytes 0 fields-AreLaid

      left : frame.pkt_len - packet_hdr_len ≡ length
      left = ground arith

  fill_frame-payload :
      (trim : Bool) (length : ℕ) (m : Mbuf) (i : ℕ)
      → packet_hdr_len ≤ i
      → (fill_frame trim local_ip local_mac dest_mac priority length m).bytes i ≡ m.bytes i
  unfolding fill_frame frame_fields
  fill_frame-payload trim length m i le = store_fields_apart _ m.bytes i (omega arith)

-- Sending writes to no frame but by `fill_frame`.
loop_back-mbufs : (k : Answers) (d : Driver) → (loop_back k d).mbufs ≡ d.mbufs
unfolding loop_back call
loop_back-mbufs k d = elim (Option-cases k.cloned) [
  | inl e ↦ rw (e, loop_back) refl
  | inr (c, e) ↦ elim (Bool-cases k.ring_has_room) [
    | inl f ↦ rw (e, loop_back) (rw f refl)
    | inr f ↦ rw (e, loop_back) (rw f refl)
  ]
]

transmit-mbufs : (b : BufRef) (m : ℕ) (d : Driver) → (transmit b m d).mbufs ≡ d.mbufs
unfolding transmit call
transmit-mbufs (mbuf a) m d = elim (Bool-cases (ltb d.corked 1)) [
  | inl e ↦ rw e refl
  | inr e ↦ rw e refl
]
transmit-mbufs (overflow_buf o) m d = elim (Bool-cases (ltb d.corked 1)) [
  | inl e ↦ rw e refl
  | inr e ↦ rw e refl
]

send_mbuf-mbufs :
    (k : Answers) (packet : Packet) (m destination priority : ℕ) (d : Driver) {mac : ℕ}
    → d.arp_table destination ≡ some mac
    → (send_mbuf k packet m destination priority d).mbufs m
      ≡ fill_frame k.does_trim d.local_ip d.local_mac mac priority packet.length (d.mbufs m)
unfolding send_mbuf
send_mbuf-mbufs k packet m destination priority d {mac} e = elim (Bool-cases (d.local_mac == mac)) [
  | inl f ↦
      rw (e, send_mbuf) (rw f (ap (λ b. b m) (loop_back-mbufs k written) ∙ rw (==_refl m) refl))
  | inr f ↦
      rw (e, send_mbuf)
        (rw f (ap (λ b. b m) (transmit-mbufs packet.buffer m written) ∙ rw (==_refl m) refl))
]
  where
    written : Driver
    written =
        set_mbuf m
          (fill_frame k.does_trim d.local_ip d.local_mac mac priority packet.length (d.mbufs m)) d

-- The mbuf in which a packet is sent: its own if nobody sends it still, or a new one for an overflow
-- buffer.
unfoldable pub carrier : Answers → BufRef → Option ℕ
carrier k (mbuf m) = if ltb 1 k.refcnt_read then none else some m
carrier k (overflow_buf o) = if k.has_room then k.allocation else none

-- The bytes of a packet's payload.
abbrev pub bytes_of : Driver → BufRef → ℕ → ℕ
bytes_of d (mbuf m) = (d.mbufs m).bytes
bytes_of d (overflow_buf o) = d.overflow_buffers o

abbrev pub payload_of : Driver → Packet → ℕ → ℕ
payload_of d packet i = bytes_of d packet.buffer (packet.payload + i)

-- What holds of a packet that `allocPacket` returns, until it is sent for the first time: its payload lies behind the headers in an mbuf of one segment that has room for it, or at the start of an
-- overflow buffer.
pub record IsPrepared (d : Driver) (packet : Packet) : Type 0 where
  pub in_mbuf :
      (m : ℕ)
      → packet.buffer ≡ mbuf m
      → (packet.payload ≡ packet_hdr_len)
        × ((d.mbufs m).nb_segs ≤ 1)
        × (packet_hdr_len + packet.length ≤ (d.mbufs m).pkt_len)
  pub in_overflow : (o : ℕ) → packet.buffer ≡ overflow_buf o → packet.payload ≡ 0

module _ (k : Answers) (p destination priority : ℕ) (d : Driver) (hw : Bool) {mac m : ℕ}
    (route : d.arp_table destination ≡ some mac) (trim : k.does_trim ≡ true)
    (prepared : IsPrepared d (d.packets p)) (one : (d.mbufs m).nb_segs ≤ 1)
    (ip_fits : d.local_ip < 2 ^ 32) (local_fits : d.local_mac < 2 ^ 48)
    (mac_fits : mac < 2 ^ 48) where
  -- What the receiver of the frame sees.
  abbrev Arrives : Driver → Type 0
  Arrives d' =
      (accept hw (d'.mbufs m)
        ≡ some (record {
          source = d.local_ip;
          payload = packet_hdr_len;
          length = (d.packets p).length;
        }))
      × ((i : ℕ)
          → i < (d.packets p).length
          → (d'.mbufs m).bytes (packet_hdr_len + i) ≡ payload_of d (d.packets p) i)

  -- The frame is in the mbuf `m`, with the payload behind the place of the headers.
  filled :
      (e : Driver)
      → (e.mbufs m).nb_segs ≤ 1
      → packet_hdr_len + (d.packets p).length ≤ (e.mbufs m).pkt_len
      → ((i : ℕ)
          → i < (d.packets p).length
          → (e.mbufs m).bytes (packet_hdr_len + i) ≡ payload_of d (d.packets p) i)
      → e.arp_table ≡ d.arp_table
      → e.local_ip ≡ d.local_ip
      → e.local_mac ≡ d.local_mac
      → Arrives (send_mbuf k (d.packets p) m destination priority e)
  filled e single room payload same_arp same_ip same_mac = rw written (
    fill_frame-accept d.local_ip d.local_mac mac priority ip_fits local_fits mac_fits hw
        (d.packets p).length (e.mbufs m) single room,
    λ i lt.
        fill_frame-payload d.local_ip d.local_mac mac priority ip_fits local_fits mac_fits true
          (d.packets p).length (e.mbufs m) (packet_hdr_len + i) (omega arith)
        ∙ payload i lt,
  )
    where
      written :
          (send_mbuf k (d.packets p) m destination priority e).mbufs m
          ≡ fill_frame true d.local_ip d.local_mac mac priority (d.packets p).length (e.mbufs m)
      written =
          send_mbuf-mbufs k (d.packets p) m destination priority e {mac = mac} (rw same_arp route)
          ∙ rw (trim, same_ip, same_mac) refl

  in_place :
      (i : ℕ) {a : ℕ}
      → (d.packets p).payload ≡ packet_hdr_len
      → a ≡ m
      → (d.mbufs m).bytes (packet_hdr_len + i) ≡ bytes_of d (mbuf a) ((d.packets p).payload + i)
  in_place i e same = rw (e, same) refl

  copied :
      (o i : ℕ)
      → i < (d.packets p).length
      → (d.packets p).payload ≡ 0
      → ((copy_out m o (d.packets p).length d).mbufs m).bytes (packet_hdr_len + i)
        ≡ d.overflow_buffers o ((d.packets p).payload + i)
  unfolding copy_out memcpy
  copied o i lt e = rw (==_refl, e) (ground arith)

  by_buffer :
      (b : BufRef)
      → (d.packets p).buffer ≡ b
      → carrier k b ≡ some m
      → Arrives (send_buffer k (d.packets p) b destination priority d)
  unfolding send_buffer carrier copy_out send_mbuf loop_back
  by_buffer (mbuf a) e c = elim (Bool-cases (ltb 1 k.refcnt_read)) [
    | inl busy ↦ absurd (ground arith)
    | inr free ↦
        let same : a ≡ m = ground arith in
        let own = prepared.in_mbuf a e in
        rw (free, same)
          (filled d one (rw same at own.2)
            (λ i lt.
              in_place i own.0 same ∙ sym (ap (λ b. bytes_of d b ((d.packets p).payload + i)) e))
            refl refl refl)
  ]
  by_buffer (overflow_buf o) e c = elim (Bool-cases k.has_room) [
    | inr full ↦ absurd (ground arith)
    | inl room ↦
        let there : k.allocation ≡ some m = ground arith in
        rw (there, room)
          (filled (copy_out m o (d.packets p).length d) (rw ==_refl one) (rw ==_refl (omega arith))
            (λ i lt.
              copied o i lt (prepared.in_overflow o e)
              ∙ sym (ap (λ b. bytes_of d b ((d.packets p).payload + i)) e))
            refl refl refl)
  ]

-- A packet that `allocPacket` returned and that is sent for the first time, to an address of the table:
-- the frame in the mbuf that carries it is accepted by a driver that receives it, whether its hardware
-- filters or not, with the sender's address, the packet's length and the bytes of its payload. (The
-- addresses fit their widths, and the mbuf is one segment and can be trimmed.)
pub sent_frame :
    (k : Answers) (p destination priority : ℕ) (d : Driver) (hw : Bool) {mac m : ℕ}
    → d.arp_table destination ≡ some mac
    → k.does_trim ≡ true
    → IsPrepared d (d.packets p)
    → (d.mbufs m).nb_segs ≤ 1
    → d.local_ip < 2 ^ 32
    → d.local_mac < 2 ^ 48
    → mac < 2 ^ 48
    → carrier k (d.packets p).buffer ≡ some m
    → let f = (send_packet k p destination priority d).mbufs m in
      (accept hw f
        ≡ some (record {
          source = d.local_ip;
          payload = packet_hdr_len;
          length = (d.packets p).length;
        }))
      × ((i : ℕ)
          → i < (d.packets p).length
          → f.bytes (packet_hdr_len + i) ≡ payload_of d (d.packets p) i)
unfolding send_packet
sent_frame k p destination priority d hw route trim prepared one ip_fits local_fits mac_fits c =
    by_buffer k p destination priority d hw route trim prepared one ip_fits local_fits mac_fits
      (d.packets p).buffer refl c
