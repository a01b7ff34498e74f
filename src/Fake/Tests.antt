-- ===== src/Fake/Tests.antt =====
-- A network of two drivers, where packets of two priorities come in.
use homa.Base.{
  take, drop, ℕ, ◌≡◌, refl, false, ◌&&◌, not, List, [], ◌∷◌, arith, ◌==◌, if◌then◌else◌, maybe,
}
use homa.Fake.{
  FakeNetwork, FakePacket, FakeNic, make_network, make_packet, register_nic, send_packet,
  receive_packets, receive_loop, drain, push, make_nic,
}
use homa.Fake.Queues.{contents, map_queue, insert, queue_of, packets_of, network_refines}

abbrev two : FakeNetwork
two = (register_nic (register_nic make_network).1).1

abbrev busy : FakeNetwork
busy = send_packet false make_packet 3 2 1 (send_packet false make_packet 5 2 1 two)

-- Of three packets, those of the two highest priorities are received, whatever came first.
abbrev sent : FakeNetwork
sent =
    send_packet false (record make_packet { length = 7 }) 6 2 1
      (send_packet false (record make_packet { length = 9 }) 6 2 1
        (send_packet false (record make_packet { length = 8 }) 4 2 1 two))

abbrev lengths : List FakePacket → List ℕ
lengths [] = []
lengths (p ∷ ps) = p.length ∷ lengths ps

received_first : maybe [] (λ nic. lengths (receive_packets 2 nic).0) (sent.network 1) ≡ 9 ∷ 7 ∷ []
unfolding receive_packets receive_loop drain send_packet push make_packet make_network register_nic
    make_nic
received_first = refl

network_refines_example :
    ((a : ℕ)
      → contents (send_packet false make_packet 4 2 1 busy) a ≡ (
          if not false && a == 1
          then map_queue (insert (4, record make_packet { source_ip = 2 })) (contents busy a)
          else contents busy a))
    × ((nic : FakeNic) (max_packets : ℕ)
        → ((receive_packets max_packets nic).0 ≡ packets_of (take max_packets (queue_of nic)))
          × (queue_of (receive_packets max_packets nic).1 ≡ drop max_packets (queue_of nic)))
network_refines_example = network_refines false make_packet 4 2 1 busy (omega arith)
