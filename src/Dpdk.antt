-- ===== src/Dpdk.antt =====
-- src/Drivers/DPDK/DpdkDriverImpl.h and .cc: the packet buffers and counters of the DPDK driver.
-- DPDK itself is not modelled: what its functions answer are arguments, and the calls that matter to it
-- are recorded in `calls`, newest first. Memory of mbufs and of overflow buffers is bytes at addresses.
pub mod Sending
pub mod Receiving
pub mod Frames
pub mod Control
pub mod ControlFrames
pub mod Holding
pub mod Handling
mod Tests
use homa.Base.{
  ℕ, zero, suc, ◌+◌, ◌-◌, ◌*◌, ◌%◌, ◌^◌, ◌≡◌, Bool, true, false, Option, none, some, List, [], ◌∷◌,
  ltb, ◌==◌, if◌then◌else◌, maybe,
}
use homa.Protocol.Wire.{Payload}
use homa.ObjectPool.{ObjectPool, construct, destroy}

-- `NB_MBUF`, `NB_MBUF_RESERVED`, and the limit that `allocPacket` and `receivePackets` compute.
abbrev pub nb_mbuf : ℕ
nb_mbuf = 16383

abbrev pub nb_mbuf_reserved : ℕ
nb_mbuf_reserved = 4096

abbrev pub mbuf_alloc_limit : ℕ
mbuf_alloc_limit = nb_mbuf - nb_mbuf_reserved

-- `ETHER_HDR_LEN` of DPDK, `VLAN_TAG_LEN`, `IP_HDR_LEN` and `PACKET_HDR_LEN`.
abbrev pub ether_hdr_len : ℕ
ether_hdr_len = 14

abbrev pub vlan_tag_len : ℕ
vlan_tag_len = 4

abbrev pub ip_hdr_len : ℕ
ip_hdr_len = 4

abbrev pub packet_hdr_len : ℕ
packet_hdr_len = ether_hdr_len + vlan_tag_len + ip_hdr_len

-- `MAX_PAYLOAD_SIZE`, which is `ETHER_MTU` of DPDK.
abbrev pub max_payload_size : ℕ
max_payload_size = 1500

-- `PRIORITY_TO_PCP`
abbrev pub priority_to_pcp : List ℕ
priority_to_pcp =
    1 * 2 ^ 13
    ∷ 0 * 2 ^ 13
    ∷ 2 * 2 ^ 13
    ∷ 3 * 2 ^ 13
    ∷ 4 * 2 ^ 13
    ∷ 5 * 2 ^ 13
    ∷ 6 * 2 ^ 13
    ∷ 7 * 2 ^ 13
    ∷ []

-- `EthPayloadType::HOMA`, and `ETHER_TYPE_VLAN` of DPDK.
abbrev pub homa_type : ℕ
homa_type = 0x88b5

abbrev pub vlan_type : ℕ
vlan_type = 0x8100

-- What the driver reads of a `struct rte_mbuf`: its bytes, `pkt_len` and `nb_segs`.
pub record Mbuf : Type 0 where
  pub bytes : Payload
  pub pkt_len : ℕ
  pub nb_segs : ℕ

-- `bufType` with `bufRef`: the address of an mbuf or of an overflow buffer.
pub data BufRef : Type 0 where
  mbuf overflow_buf : (address : ℕ) → BufRef

abbrev pub is_mbuf : BufRef → Bool
is_mbuf (mbuf a) = true
is_mbuf (overflow_buf a) = false

-- `DpdkDriver::Impl::Packet`; `payload` is the offset in its buffer. (`header` is never used.)
pub record Packet : Type 0 where
  pub payload : ℕ
  pub length : ℕ
  pub buffer : BufRef

-- Calls of DPDK that give an mbuf away or send.
pub data Call : Type 0 where
  pktmbuf_free refcnt_up ring_enqueue tx_buffer : (address : ℕ) → Call
  tx_flush : Call

-- `DpdkDriver::Impl`, without the queue estimator (floating point) and what only DPDK needs. A MAC
-- address is its six bytes as a number.
pub record Driver : Type 0 where
  pub arp_table : ℕ → Option ℕ
  pub local_ip : ℕ
  pub local_mac : ℕ
  pub packets : ℕ → Packet
  pub packet_pool : ObjectPool
  pub overflow_buffers : ℕ → Payload
  pub overflow_pool : ObjectPool
  pub mbufs : ℕ → Mbuf
  pub mbufs_outstanding : ℕ
  pub has_hardware_filter : Bool
  pub corked : ℕ
  pub buffered_bytes : ℕ
  pub calls : List Call

unfoldable pub call : Call → Driver → Driver
call c d = record d { calls = c ∷ d.calls }

-- Writes to memory.
abbrev pub set_packet : ℕ → Packet → Driver → Driver
set_packet p packet d = record d { packets = λ q. if q == p then packet else d.packets q }

abbrev pub set_mbuf : ℕ → Mbuf → Driver → Driver
set_mbuf a m d = record d { mbufs = λ q. if q == a then m else d.mbufs q }

-- `construct` of a pool whose objects have constructors that do not throw: the object is there. `fresh` is
-- memory from `operator new`.
unfoldable pub construct_object : (fresh : ℕ) → ObjectPool → ℕ × ObjectPool
construct_object fresh pool =
    let (object, pool') = construct fresh false pool in (maybe fresh (λ a. a) object, pool')

-- `packetPool.construct(mbuf, data)` and the count of mbufs: the address of the packet, and the driver.
unfoldable pub hold_mbuf : ℕ → (fresh payload : ℕ) → Driver → ℕ × Driver
hold_mbuf m fresh payload d =
    let (p, pool) = construct_object fresh d.packet_pool in
    (
      p,
      record (set_packet p (record { payload = payload; length = 0; buffer = mbuf m }) d) {
        packet_pool = pool;
        mbufs_outstanding = (d.mbufs_outstanding + 1) % 2 ^ 32;
      },
    )

-- `overflowBufferPool.construct()` and `packetPool.construct(buf)`.
unfoldable pub hold_overflow : (fresh_buffer fresh : ℕ) → Driver → ℕ × Driver
hold_overflow fresh_buffer fresh d =
    let (o, buffers) = construct_object fresh_buffer d.overflow_pool in
    let (p, pool) = construct_object fresh d.packet_pool in
    (
      p,
      record (set_packet p (record { payload = 0; length = 0; buffer = overflow_buf o }) d) {
        overflow_pool = buffers;
        packet_pool = pool;
      },
    )

-- `allocPacket`, while the driver may hold more mbufs.
unfoldable pub alloc_mbuf :
    (alloc : Option ℕ) (append : Bool) (fresh_buffer fresh : ℕ) → Driver → ℕ × Driver
alloc_mbuf none append fresh_buffer fresh d = hold_overflow fresh_buffer fresh d
alloc_mbuf (some m) append fresh_buffer fresh d =
    if append
    then hold_mbuf m fresh packet_hdr_len
        (set_mbuf m (record (d.mbufs m) { pkt_len = packet_hdr_len + max_payload_size }) d)
    else hold_overflow fresh_buffer fresh (call (pktmbuf_free m) d)

-- `allocPacket`: `alloc` is what `rte_pktmbuf_alloc` answers, and `append` whether `rte_pktmbuf_append`
-- finds room for the header and the largest payload.
unfoldable pub alloc_packet :
    (alloc : Option ℕ) (append : Bool) (fresh_buffer fresh : ℕ) → Driver → ℕ × Driver
alloc_packet alloc append fresh_buffer fresh d =
    if ltb d.mbufs_outstanding mbuf_alloc_limit
    then alloc_mbuf alloc append fresh_buffer fresh d
    else hold_overflow fresh_buffer fresh d

-- `releasePackets`, for one packet: by its buffer.
unfoldable pub release_buffer : ℕ → BufRef → Driver → Driver
release_buffer p (mbuf m) d = record (call (pktmbuf_free m) d) {
  mbufs_outstanding = d.mbufs_outstanding - 1;
  packet_pool = destroy p d.packet_pool;
}
release_buffer p (overflow_buf o) d = record d {
  overflow_pool = destroy o d.overflow_pool;
  packet_pool = destroy p d.packet_pool;
}

unfoldable pub release_packet : ℕ → Driver → Driver
release_packet p d = release_buffer p (d.packets p).buffer d

unfoldable pub release_packets : List ℕ → Driver → Driver
release_packets [] d = d
release_packets (p ∷ ps) d = release_packets ps (release_packet p d)

-- `cork` and `uncork`, which answers a `cork`.
unfoldable pub cork : Driver → Driver
cork d = record d { corked = d.corked + 1 }

unfoldable pub uncork : Driver → Driver
uncork d =
    let d' : Driver = record d { corked = d.corked - 1 } in
    if d.corked == 1 then call tx_flush d' else d'

-- `txBurstCallback`: the bytes of a burst leave the count of buffered bytes.
unfoldable pub burst_bytes : (ℕ → Mbuf) → List ℕ → ℕ
burst_bytes mbufs [] = 0
burst_bytes mbufs (m ∷ ms) = (mbufs m).pkt_len + burst_bytes mbufs ms

unfoldable pub tx_burst_callback : List ℕ → Driver → Driver
tx_burst_callback burst d = record d {
  buffered_bytes = d.buffered_bytes - burst_bytes d.mbufs burst;
}
