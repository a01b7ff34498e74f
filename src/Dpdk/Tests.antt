-- ===== src/Dpdk/Tests.antt =====
-- The theorems on the DPDK driver, at a driver that holds one packet in an mbuf.
use homa.Base.{
  ◌≤◌, inr, inl, Bool-cases, ℕ, ◌+◌, ◌<◌, ◌≡◌, refl, true, false, none, some, [], ◌∷◌, arith, ◌==◌,
  if◌then◌else◌,
}
use homa.Intrusive.{remove}
use homa.ObjectPool.{make_pool}
use homa.Protocol.Wire.{load, swap16}
use homa.Dpdk.{packet_hdr_len, mbuf_alloc_limit, Mbuf, mbuf, Packet, Driver, release_packet}
use homa.Dpdk.Sending.{Answers, send_packet}
use homa.Dpdk.Receiving.{Accepted, accept, ether_type}
use homa.Protocol as HomaProtocol
use homa.Protocol.Wire.{read_header, header_size}
use homa.Dpdk.Control.{fill_packet, construct_header}
use homa.Dpdk.ControlFrames.{control_frame}
use homa.Dpdk.Frames.{carrier, payload_of, IsPrepared, sent_frame}
use homa.Dpdk.Holding.{IsHeld}
use homa.Dpdk.Handling.{released, handled-IsHeld}

abbrev held_packet : Packet
held_packet = record { payload = packet_hdr_len; length = 40; buffer = mbuf 500 }

-- Packet 7 holds mbuf 500; 10.0.0.2 has the hardware address 5.
abbrev driver : Driver
driver = record {
  arp_table = λ ip. if ip == 2 then some 5 else none;
  local_ip = 1;
  local_mac = 4;
  packets = λ _. held_packet;
  packet_pool = record { outstanding_objects = 1; pool = [] };
  overflow_buffers = λ _ i. i;
  overflow_pool = make_pool;
  mbufs = λ _. record { bytes = λ i. i; pkt_len = 1522; nb_segs = 1 };
  mbufs_outstanding = 1;
  has_hardware_filter = false;
  corked = 0;
  buffered_bytes = 0;
  calls = [];
}

abbrev answers : Answers
answers = record {
  allocation = some 501;
  has_room = true;
  refcnt_read = 1;
  does_trim = true;
  cloned = none;
  ring_has_room = true;
}

driver-IsPrepared : IsPrepared driver held_packet
driver-IsPrepared = record {
  in_mbuf = λ m e. (refl, omega arith, omega arith);
  in_overflow = λ o e. cc;
}

carried : carrier answers (mbuf 500) ≡ some 500
unfolding carrier
carried = refl

sent_frame_example :
    (let f = (send_packet answers 7 2 3 driver).mbufs 500 in
      (accept false f ≡ some (record { source = 1; payload = packet_hdr_len; length = 40 }))
      × ((i : ℕ) → i < 40 → f.bytes (packet_hdr_len + i) ≡ payload_of driver held_packet i))
sent_frame_example =
    sent_frame answers 7 2 3 driver false refl refl driver-IsPrepared (omega arith) (omega arith)
      (omega arith) (omega arith) carried

driver-IsHeld : IsHeld (7 ∷ []) driver
driver-IsHeld = record {
  pooled = record { counted = refl; once = λ a. ground arith };
  counted = refl;
  limited = omega arith;
}

handled-IsHeld_example : IsHeld (remove 7 (7 ∷ [])) (release_packet 7 driver)
handled-IsHeld_example = handled-IsHeld (released 7 refl) (omega arith) driver-IsHeld

-- A frame of Homa that carries ten bytes.
abbrev frame : Mbuf
frame = record {
  bytes = λ i.
      if i == 12
      then 0x81
      else if i == 16
      then 0x88
      else if i == 17
      then 0xb5
      else if i == 18
      then 9
      else 0;
  pkt_len = 32;
  nb_segs = 1;
}

abbrev full : Driver
full = record driver { mbufs = λ _. frame; mbufs_outstanding = mbuf_alloc_limit }

abbrev accepted : Accepted
accepted = record { source = 9; payload = packet_hdr_len; length = 10 }

full_accepts : accept false frame ≡ some accepted
unfolding accept ether_type load swap16
full_accepts = refl

abbrev done_header : HomaProtocol.Packet
done_header = HomaProtocol.done_packet (record { transport_id = 5; sequence = 6 })

filled-IsPrepared :
    IsPrepared (fill_packet done_header 7 driver) ((fill_packet done_header 7 driver).packets 7)
unfolding fill_packet construct_header header_size
filled-IsPrepared = record {
  in_mbuf = λ m e. elim (Bool-cases (m == 500)) [
    | inl f ↦ rw f (refl, omega arith, omega arith)
    | inr f ↦ rw f (refl, omega arith, omega arith)
  ];
  in_overflow = λ o e. cc;
}

filled_segments : ((fill_packet done_header 7 driver).mbufs 500).nb_segs ≤ 1
unfolding fill_packet construct_header
filled_segments = omega arith

control_frame_example :
    (let f = (send_packet answers 7 2 3 (fill_packet done_header 7 driver)).mbufs 500 in
      (accept false f
        ≡ some (record { source = 1; payload = packet_hdr_len; length = header_size done_header }))
      × (read_header (λ i. f.bytes (packet_hdr_len + i)) ≡ some done_header))
control_frame_example =
    control_frame answers 7 2 3 driver false done_header (omega arith, omega arith) refl refl
      filled-IsPrepared filled_segments (omega arith) (omega arith) (omega arith) carried
