-- ===== src/Dpdk/Receiving.antt =====
-- src/Drivers/DPDK/DpdkDriverImpl.cc: `receivePackets`.
use homa.Base.{
  ℕ, ◌+◌, ◌-◌, ◌/◌, min, Bool, not, Option, none, some, List, [], ◌∷◌, ◌++◌, ltb, ◌==◌, ◌&&◌,
  if◌then◌else◌, maybe, length, take,
}
use homa.Protocol.Wire.{Payload, load, swap16}
use homa.Sender.Buffer.{memcpy}
use homa.Dpdk.{
  mbuf_alloc_limit, ether_hdr_len, vlan_tag_len, ip_hdr_len, homa_type, vlan_type, Mbuf,
  pktmbuf_free, Driver, call, set_packet, set_mbuf, construct_object, hold_mbuf, hold_overflow,
}

-- What the headers of a frame say: its Ethernet type, that behind the VLAN tag if there is one, and the
-- offset of what follows.
unfoldable pub ether_type : Payload → ℕ × ℕ
ether_type bytes =
    if load bytes 12 2 == swap16 vlan_type
    then (load bytes (ether_hdr_len + 2) 2, ether_hdr_len + vlan_tag_len)
    else (load bytes 12 2, ether_hdr_len)

-- A frame that is accepted: the address of its sender, and the offset and the length of its payload.
pub record Accepted : Type 0 where
  pub source : ℕ
  pub payload : ℕ
  pub length : ℕ

-- A frame of several segments is discarded, and so is one of another type unless the hardware filters.
-- (A frame is at least as long as its headers, by the assertion.)
unfoldable pub accept : (has_hardware_filter : Bool) → Mbuf → Option Accepted
accept has_hardware_filter m =
    let (kind, header_length) = ether_type m.bytes in
    if ltb 1 m.nb_segs
    then none
    else if not has_hardware_filter && not (kind == swap16 homa_type)
    then none
    else some (record {
      source = load m.bytes header_length 4;
      payload = header_length + ip_hdr_len;
      length = m.pkt_len - (header_length + ip_hdr_len);
    })

-- The packet for a frame that is accepted. Where too many mbufs are held it is one of an overflow
-- buffer, and `rte_memcpy(payload, buf->data, length)` is called: it copies to its first argument.
unfoldable pub make_received : (fresh_buffer fresh : ℕ) → ℕ → Accepted → Driver → ℕ × Driver
make_received fresh_buffer fresh m a d =
    if ltb d.mbufs_outstanding mbuf_alloc_limit
    then hold_mbuf m fresh a.payload d
    else let (p, d') = hold_overflow fresh_buffer fresh d in
      let buffer = (construct_object fresh_buffer d.overflow_pool).0 in
      (
        p,
        set_mbuf m
            (record (d.mbufs m) {
              bytes = memcpy (d.mbufs m).bytes a.payload (d.overflow_buffers buffer) 0 a.length;
            })
            d',
      )

-- One round of the loop of `receivePackets`: the packet with the address of its sender, if the frame in
-- the mbuf is accepted.
unfoldable pub receive_mbuf : (fresh_buffer fresh : ℕ) → ℕ → Driver → Option (ℕ × ℕ) × Driver
receive_mbuf fresh_buffer fresh m d = elim (accept d.has_hardware_filter (d.mbufs m)) [
  | none ↦ (none, call (pktmbuf_free m) d)
  | some a ↦
      let (p, d') = make_received fresh_buffer fresh m a d in
      (some (p, a.source), set_packet p (record (d'.packets p) { length = a.length }) d')
]

-- The loop; `fresh_buffer` and `fresh` are the memory that `operator new` returns in each round.
unfoldable pub receive_loop :
    (fresh_buffer fresh : ℕ → ℕ) → ℕ → List ℕ → Driver → List (ℕ × ℕ) × Driver
receive_loop fresh_buffer fresh i [] d = ([], d)
receive_loop fresh_buffer fresh i (m ∷ ms) d =
    let (received, d₁) = receive_mbuf (fresh_buffer i) (fresh i) m d in
    let (rest, d₂) = receive_loop fresh_buffer fresh (i + 1) ms d₁ in
    (maybe rest (λ r. r ∷ rest) received, d₂)

-- How many packets are taken from the loopback ring, and how many are asked for from the NIC.
unfoldable pub shares : (max_packets ring_count : ℕ) → ℕ × ℕ
shares max_packets ring_count =
    let limit = min max_packets 32 in
    let loopback = min ring_count (limit / 2) in (loopback, limit - loopback)

-- `receivePackets`: `ring` is what the loopback ring holds, the oldest first, and `burst` answers
-- `rte_eth_rx_burst` for a number of packets.
unfoldable pub receive_packets :
    (fresh_buffer fresh : ℕ → ℕ) (max_packets : ℕ) (ring : List ℕ) (burst : ℕ → List ℕ)
    → Driver
    → List (ℕ × ℕ) × Driver
receive_packets fresh_buffer fresh max_packets ring burst d =
    let (loopback, incoming) = shares max_packets (length ring) in
    receive_loop fresh_buffer fresh 0 (take loopback ring ++ burst incoming) d
