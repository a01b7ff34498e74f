-- ===== src/Fake.antt =====
-- src/Drivers/Fake/FakeDriver.cc and its header: drivers that pass packets to each other in a process.
-- A network maps the address of each driver to the driver's interface, whose queues are listed by
-- priority. Whether the network loses a packet, a comparison of a random number, is an argument; the
-- queue estimator, which computes with floating-point numbers, is left out. A packet is a value, so
-- copying one is the identity and releasing it is nothing.
pub mod Queues
mod Tests
use homa.Base.{
  ℕ, zero, suc, ◌+◌, ◌-◌, ◌*◌, ◌/◌, ◌%◌, ◌^◌, ◌≤◌, ◌<◌, min, max, ◌≡◌, refl, sym, ap, ◌∙◌, subst,
  ◌≢◌, ◌↔◌, ◌⊎◌, inl, inr, Bool, true, false, ◌&&◌, ◌||◌, not, Option, none, some, List, [], ◌∷◌,
  ◌++◌, arith, ltb, leb, ◌==◌, if◌then◌else◌, ==_iff, ==_refl, by_address, maybe, Bool-cases,
  Option-cases, length, get_elem?, length-append, All, All-append, All-append_left,
  All-append_right, All-map, AtLeast, AtMost, IsSorted, IsDescending, AtLeast-le, AtMost-le,
  append_assoc, append-nil, IsSorted-append_last, IsSorted-append_le, IsSorted-congr,
  IsSorted-append_left, IsSorted-append_right, IsSorted-append,
}

-- `NUM_PRIORITIES` and `MAX_PAYLOAD_SIZE`
abbrev pub num_priorities : ℕ
num_priorities = 8

abbrev pub max_payload_size : ℕ
max_payload_size = 1500

-- `FakePacket`
pub record FakePacket : Type 0 where
  pub length : ℕ
  pub payload : ℕ → ℕ
  pub source_ip : ℕ

-- `FakeNIC`: the packets that came in, by priority, the oldest first.
pub record FakeNic : Type 0 where
  pub priority_queue : ℕ → List FakePacket

-- `FakeNetwork`
pub record FakeNetwork : Type 0 where
  pub network : ℕ → Option FakeNic
  pub next_address_id : ℕ

-- The constructors
unfoldable pub make_network : FakeNetwork
make_network = record { network = λ _. none; next_address_id = 1 }

unfoldable pub make_nic : FakeNic
make_nic = record { priority_queue = λ _. [] }

unfoldable pub make_packet : FakePacket
make_packet = record { length = 0; payload = λ _. 0; source_ip = 0 }

-- A write to the entry of an address.
abbrev pub set_nic : ℕ → Option FakeNic → FakeNetwork → FakeNetwork
set_nic address nic s = record s { network = λ a. if a == address then nic else s.network a }

-- `FakeNetwork::registerNIC`, which the constructor of a driver calls: the address, which is a
-- `uint32_t`, and the network; `insert` leaves an entry that is there.
unfoldable pub register_nic : FakeNetwork → ℕ × FakeNetwork
register_nic s =
    let address = s.next_address_id in
    let s' : FakeNetwork = record s { next_address_id = (address + 1) % 2 ^ 32 } in
    (address, maybe (set_nic address (some make_nic) s') (λ _. s') (s.network address))

-- `FakeNetwork::deregisterNIC`, which the destructor calls.
unfoldable pub deregister_nic : ℕ → FakeNetwork → FakeNetwork
deregister_nic address s = set_nic address none s

-- A packet goes behind those of its priority.
unfoldable pub push : (priority : ℕ) → FakePacket → FakeNic → FakeNic
push priority packet nic = record {
  priority_queue =
      λ i. if i == priority then nic.priority_queue i ++ (packet ∷ []) else nic.priority_queue i;
}

-- `FakeNetwork::sendPacket`, by which a driver sends: a packet that is lost or goes to an unknown address
-- changes nothing, and the copy that is queued names its source.
unfoldable pub send_packet :
    (lost : Bool) → FakePacket → (priority src dst : ℕ) → FakeNetwork → FakeNetwork
send_packet lost packet priority src dst s =
    let sent =
      maybe s (λ nic. set_nic dst (some (push priority (record packet { source_ip = src }) nic)) s)
        (s.network dst) in
    if lost then s else sent

-- The inner loop of `FakeDriver::receivePackets`: so many packets from the front of a queue, or all of
-- them, and the rest.
unfoldable pub drain : ℕ → List FakePacket → List FakePacket × List FakePacket
drain zero q = ([], q)
drain (suc left) [] = ([], [])
drain (suc left) (p ∷ q) = let (taken, rest) = drain left q in (p ∷ taken, rest)

-- Its outer loop, over the priorities below one, the highest first, with so many packets left to take.
unfoldable pub receive_loop : (priority left : ℕ) → FakeNic → List FakePacket × FakeNic
receive_loop zero left nic = ([], nic)
receive_loop (suc i) left nic =
    let (taken, rest) = drain left (nic.priority_queue i) in
    let (packets, nic') =
      receive_loop i (left - length taken)
        (record { priority_queue = λ j. if j == i then rest else nic.priority_queue j }) in
    (taken ++ packets, nic')

-- `FakeDriver::receivePackets`, on the interface of the driver.
unfoldable pub receive_packets : (max_packets : ℕ) → FakeNic → List FakePacket × FakeNic
receive_packets max_packets nic = receive_loop num_priorities max_packets nic

-- `FakeDriver::getHighestPacketPriority`
unfoldable pub get_highest_packet_priority : ℕ
get_highest_packet_priority = num_priorities - 1
