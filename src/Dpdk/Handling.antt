-- ===== src/Dpdk/Handling.antt =====
-- What `sendPacket` leaves alone, and what holds through all that the driver does with packets.
use homa.Base.{
  ℕ, ◌+◌, ◌^◌, ◌<◌, ◌≡◌, refl, sym, ap, ◌∙◌, subst, inl, inr, Bool, true, Option, List, ◌∷◌, arith,
  ltb, ◌==◌, ==_refl, maybe, Bool-cases, Option-cases, length,
}
use homa.Intrusive.{remove, contains}
use homa.ObjectPool.Laws.{IsFresh, IsValid}
use homa.Intrusive.Sums.{total}
use homa.Protocol as HomaProtocol
use homa.Protocol.Wire.{header_size}
use homa.Dpdk.Receiving.{receive_mbuf}
use homa.Dpdk.{
  BufRef, mbuf, overflow_buf, Packet, Driver, call, Mbuf, set_mbuf, alloc_packet, release_packet,
}
use homa.Dpdk.Sending.{Answers, loop_back, transmit, send_mbuf, copy_out, send_buffer, send_packet}
use homa.Dpdk.Control.{construct_header, fill_packet, send}
use homa.Dpdk.Holding.{
  mbufs_in, IsHeld, alloc_packet-IsHeld, release_packet-IsHeld, receive_mbuf-IsHeld,
  set_length-IsHeld,
}

-- The packets, the pool of them and the count of mbufs are the same.
record Keeps (d d' : Driver) : Type 0 where
  packets : d'.packets ≡ d.packets
  packet_pool : d'.packet_pool ≡ d.packet_pool
  outstanding : d'.mbufs_outstanding ≡ d.mbufs_outstanding

Keeps-refl : (d : Driver) → Keeps d d
Keeps-refl d = record { packets = refl; packet_pool = refl; outstanding = refl }

loop_back-Keeps : (k : Answers) (d : Driver) → Keeps d (loop_back k d)
unfolding loop_back call
loop_back-Keeps k d = elim (Option-cases k.cloned) [
  | inl e ↦ rw e (Keeps-refl d)
  | inr (c, e) ↦ rw e (elim (Bool-cases k.ring_has_room) [
    | inl f ↦ rw f (record { packets = refl; packet_pool = refl; outstanding = refl })
    | inr f ↦ rw f (record { packets = refl; packet_pool = refl; outstanding = refl })
  ])
]

transmit-Keeps : (b : BufRef) (m : ℕ) (d : Driver) → Keeps d (transmit b m d)
unfolding transmit call
transmit-Keeps (mbuf a) m d = elim (Bool-cases (ltb d.corked 1)) [
  | inl e ↦ rw e (record { packets = refl; packet_pool = refl; outstanding = refl })
  | inr e ↦ rw e (record { packets = refl; packet_pool = refl; outstanding = refl })
]
transmit-Keeps (overflow_buf o) m d = elim (Bool-cases (ltb d.corked 1)) [
  | inl e ↦ rw e (record { packets = refl; packet_pool = refl; outstanding = refl })
  | inr e ↦ rw e (record { packets = refl; packet_pool = refl; outstanding = refl })
]

-- A write to an mbuf first.
after_write : (m : ℕ) (b : Mbuf) (d d' : Driver) → Keeps (set_mbuf m b d) d' → Keeps d d'
after_write m b d d' k = record {
  packets = k.packets;
  packet_pool = k.packet_pool;
  outstanding = k.outstanding;
}

send_mbuf-Keeps :
    (k : Answers) (packet : Packet) (m destination priority : ℕ) (d : Driver)
    → Keeps d (send_mbuf k packet m destination priority d)
unfolding send_mbuf
send_mbuf-Keeps k packet m destination priority d = elim (Option-cases (d.arp_table destination)) [
  | inl e ↦ rw e (Keeps-refl d)
  | inr (mac, e) ↦ rw e (elim (Bool-cases (d.local_mac == mac)) [
    | inl f ↦ rw f (after_write m _ d _ (loop_back-Keeps k _))
    | inr f ↦ rw f (after_write m _ d _ (transmit-Keeps packet.buffer m _))
  ])
]

send_buffer-Keeps :
    (k : Answers) (packet : Packet) (b : BufRef) (destination priority : ℕ) (d : Driver)
    → Keeps d (send_buffer k packet b destination priority d)
unfolding send_buffer copy_out call send_mbuf loop_back
send_buffer-Keeps k packet (mbuf m) destination priority d =
    elim (Bool-cases (ltb 1 k.refcnt_read)) [
      | inl e ↦ rw e (Keeps-refl d)
      | inr e ↦ rw e (send_mbuf-Keeps k packet m destination priority d)
    ]
send_buffer-Keeps k packet (overflow_buf o) destination priority d =
    elim (Option-cases k.allocation) [
      | inl e ↦ rw e (Keeps-refl d)
      | inr (m, e) ↦ rw e (elim (Bool-cases k.has_room) [
        | inl f ↦ rw f (after_write m _ d _ (send_mbuf-Keeps k packet m destination priority _))
        | inr f ↦ rw f (record { packets = refl; packet_pool = refl; outstanding = refl })
      ])
    ]

Keeps-IsHeld : (live : List ℕ) (d d' : Driver) → Keeps d d' → IsHeld live d → IsHeld live d'
Keeps-IsHeld live d d' k held = record {
  pooled = subst (IsValid live) (sym k.packet_pool) held.pooled;
  counted =
      ap (λ packets. total (λ p. mbufs_in (packets p).buffer) live) k.packets
      ∙ held.counted
      ∙ sym k.outstanding;
  limited = omega (arith, k.outstanding, held.limited);
}

send_packet-IsHeld :
    (live : List ℕ) (k : Answers) (p destination priority : ℕ) (d : Driver)
    → IsHeld live d
    → IsHeld live (send_packet k p destination priority d)
unfolding send_packet
send_packet-IsHeld live k p destination priority d held =
    Keeps-IsHeld live d _
      (send_buffer-Keeps k (d.packets p) (d.packets p).buffer destination priority d) held

construct_header-Keeps :
    (h : HomaProtocol.Packet) (b : BufRef) (payload : ℕ) (d : Driver)
    → Keeps d (construct_header h b payload d)
unfolding construct_header
construct_header-Keeps h (mbuf m) payload d = record {
  packets = refl;
  packet_pool = refl;
  outstanding = refl;
}
construct_header-Keeps h (overflow_buf o) payload d = record {
  packets = refl;
  packet_pool = refl;
  outstanding = refl;
}

fill_packet-IsHeld :
    (live : List ℕ) (h : HomaProtocol.Packet) (p : ℕ) (d : Driver)
    → IsHeld live d
    → IsHeld live (fill_packet h p d)
unfolding fill_packet
fill_packet-IsHeld live h p d held = set_length-IsHeld live _ p (header_size h) (
    Keeps-IsHeld live d _ (construct_header-Keeps h (d.packets p).buffer (d.packets p).payload d)
      held)

-- The packet that the application got last is given back.
give_back-IsHeld :
    (live : List ℕ) (p : ℕ) (d : Driver) → IsHeld (p ∷ live) d → IsHeld live (release_packet p d)
give_back-IsHeld live p d held =
    let given = release_packet-IsHeld (p ∷ live) d p held (rw ==_refl refl) in
    rw (==_refl p) at given

-- Sending a control packet gives back the packet that it allocates.
send-IsHeld :
    (live : List ℕ) (d : Driver) (k : Answers) (alloc : Option ℕ) (append : Bool)
    (fresh_buffer fresh address priority : ℕ) (h : HomaProtocol.Packet)
    → IsFresh fresh live d.packet_pool
    → length live + 1 < 2 ^ 64
    → IsHeld live d
    → IsHeld live (send k alloc append fresh_buffer fresh address priority h d)
unfolding send
send-IsHeld live d k alloc append fresh_buffer fresh address priority h unused few held =
    let (p, d') = alloc_packet alloc append fresh_buffer fresh d in
    let held' : IsHeld (p ∷ live) d' =
      alloc_packet-IsHeld live d alloc append fresh_buffer fresh held few unused in
    give_back-IsHeld live p _ (
      send_packet-IsHeld (p ∷ live) k p address priority _
        (fill_packet-IsHeld (p ∷ live) h p d' held'))

-- What the driver does with packets, by the packets that the application holds before and after:
-- `allocPacket` hands out a packet, `releasePackets` takes one back that is held, a round of
-- `receivePackets` hands out a packet or discards the frame, and `sendPacket` and `ControlPacket::send`
-- hand out none. Memory from `operator new` is not in use.
pub data Handled (live : List ℕ) (d : Driver) : List ℕ → Driver → Type 0 where
  allocated :
      (alloc : Option ℕ) (append : Bool) (fresh_buffer fresh : ℕ)
      → IsFresh fresh live d.packet_pool
      → Handled live d
          ((alloc_packet alloc append fresh_buffer fresh d).0 ∷ live)
          (alloc_packet alloc append fresh_buffer fresh d).1
  released : (p : ℕ) → contains p live ≡ true → Handled live d (remove p live) (release_packet p d)
  received :
      (fresh_buffer fresh m : ℕ)
      → IsFresh fresh live d.packet_pool
      → Handled live d
          (maybe live (λ r. r.0 ∷ live) (receive_mbuf fresh_buffer fresh m d).0)
          (receive_mbuf fresh_buffer fresh m d).1
  sent :
      (k : Answers) (p destination priority : ℕ)
      → Handled live d live (send_packet k p destination priority d)
  control_sent :
      (k : Answers) (alloc : Option ℕ) (append : Bool) (fresh_buffer fresh address priority : ℕ)
      (h : HomaProtocol.Packet)
      → IsFresh fresh live d.packet_pool
      → Handled live d live (send k alloc append fresh_buffer fresh address priority h d)

-- `allocPacket`, `releasePackets`, `receivePackets`, `sendPacket` and `ControlPacket::send`, whatever DPDK answers, keep the packets apart that
-- the application holds, keep `mbufsOutstanding` the number of mbufs among their buffers, and never let
-- the application hold more mbufs than the limit, which leaves the reserved ones to DPDK. (There are
-- fewer than 2^64 - 1 packets.)
pub handled-IsHeld :
    {live : List ℕ} {d : Driver} {live' : List ℕ} {d' : Driver}
    → Handled live d live' d'
    → length live + 1 < 2 ^ 64
    → IsHeld live d
    → IsHeld live' d'
handled-IsHeld {live} {d} (allocated alloc append fresh_buffer fresh unused) few held =
    alloc_packet-IsHeld live d alloc append fresh_buffer fresh held few unused
handled-IsHeld {live} {d} (released p c) few held = release_packet-IsHeld live d p held c
handled-IsHeld {live} {d} (received fresh_buffer fresh m unused) few held =
    receive_mbuf-IsHeld live d fresh_buffer fresh m held few unused
handled-IsHeld {live} {d} (sent k p destination priority) few held =
    send_packet-IsHeld live k p destination priority d held
handled-IsHeld {live} {d} (control_sent k alloc append fresh_buffer fresh address priority h unused)
      few held =
    send-IsHeld live d k alloc append fresh_buffer fresh address priority h unused few held
