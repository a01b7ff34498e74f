-- ===== src/Transport/Transfer.antt =====
-- src/TransportImpl.cc, src/Sender.cc, src/Receiver.cc: a message from the sender that writes it to the
-- receiver that reads it.
use homa.Base.{
  arith, ◌/◌, ◌-◌, ◌+◌, true, ℕ, ◌+◌, ◌-◌, ◌*◌, ◌≤◌, ◌<◌, min, ◌≡◌, refl, sym, ap, ◌∙◌, subst, ◌⊎◌,
  inl, inr, none, some, List, [], ◌∷◌, arith, All,
}
use homa.Protocol.{MessageId, DataHeader, data_packet, data_header_size}
use homa.Protocol.Wire.{read_header}
use homa.Receiver.{Receiver, DriverPacket, Message, find_message, max_message_packets}
use homa.Receiver.Messages.{copy, get}
use homa.Receiver.{completed}
use homa.Intrusive.{contains}
use homa.Receiver.Completion.{held_count, held_count-all}
use homa.Receiver.Reading.{Carries, get_lem}
use homa.Receiver.Creation.{handle_data_packet_known, handle_data_packet_new}
use homa.Receiver.Arrival.{CarriesBytes, Fills, Held, Receiving, Stored}
use homa.Transport.{Transport, Incoming, process_packet, process_packets, dispatch}

-- Whether an index occurs in a list.
abbrev pub IsIn : ℕ → List ℕ → Type 0
IsIn i [] = ⊥
IsIn i (x ∷ xs) = (x ≡ i) ⊎ IsIn i xs

-- The incoming packets of some indexes.
unfoldable pub burst : (ℕ → Incoming) → List ℕ → List Incoming
burst incoming [] = []
burst incoming (i ∷ is) = incoming i ∷ burst incoming is

-- The incoming packet of an index: it has the header of that index of a message, and carries its bytes.
pub record IsPacketOf (bytes : ℕ → ℕ) (d l : ℕ) (id : MessageId) (i : ℕ) (packet : DriverPacket)
    : Type 0 where
  pub header : DataHeader
  pub read : read_header packet.payload ≡ some (data_packet header)
  pub same_id : header.id ≡ id
  pub same_length : header.total_length ≡ l
  pub same_index : header.index ≡ i
  pub low : i < max_message_packets
  pub inside : i * d < l
  pub carries : CarriesBytes bytes d l i packet

-- A message that holds all its packets carries its bytes.
Fills-Carries :
    (bytes : ℕ → ℕ) (d l : ℕ) (m : Message)
    → 0 < d
    → l ≤ d * max_message_packets
    → Fills bytes d l m
    → ((i : ℕ) → i * d < l → Held i m)
    → Carries bytes m
Fills-Carries bytes d l m positive limit f held = record {
  positive = subst (λ k. 0 < k) (sym f.size) positive;
  limit =
      subst (λ k. m.message_length ≤ k * max_message_packets) (sym f.size)
        (subst (λ k. k ≤ d * max_message_packets) (sym f.whole) limit);
  all_stored = λ i inside.
      let (packet, at) = held i (
        subst (λ k. i * k < l) f.size (subst (λ k. i * m.packet_data_length < k) f.whole inside)) in
      (
        packet,
        record {
          stored = at;
          carried = λ o here within.
              let at_byte : packet.payload (o + data_header_size) ≡ bytes (i * d + o) =
                f.carried i packet at o (subst (λ k. o < k) f.size here) (
                  subst (λ k. i * k + o < l) f.size
                    (subst (λ k. i * m.packet_data_length + o < k) f.whole within)) in
              subst (λ k. packet.payload (o + k) ≡ bytes (i * m.packet_data_length + o))
                (sym f.header)
                (subst (λ k. packet.payload (o + data_header_size) ≡ bytes (i * k + o)) (sym f.size)
                  at_byte);
        },
      );
}

Fills-get :
    (bytes : ℕ → ℕ) (d l : ℕ) (m : Message)
    → 0 < d
    → l ≤ d * max_message_packets
    → Fills bytes d l m
    → ((i : ℕ) → i * d < l → Held i m)
    → (offset count : ℕ) → get offset count m ≡ some (copy bytes offset (min count (l - offset)))
Fills-get bytes d l m positive limit f held offset count =
    let start : offset + m.start ≡ offset = omega (arith, f.unstripped) in
    get_lem bytes m (Fills-Carries bytes d l m positive limit f held) offset count
    ∙ ap (λ k. some (copy bytes (offset + m.start) (min count (k - (offset + m.start))))) f.whole
    ∙ ap (λ k. some (copy bytes k (min count (l - k)))) start

-- A message of so many bytes has the packets that begin before its end.
expected_above : (i d l : ℕ) → 0 < d → i * d < l → i < (l + d - 1) / d
expected_above i d l positive inside = grind arith

expected_below : (i d l : ℕ) → 0 < d → i < (l + d - 1) / d → i * d < l
expected_below i d l positive below = grind arith

-- A message that holds all its packets is complete, and waits to be received.
all_stored_complete :
    (bytes : ℕ → ℕ) (d l : ℕ) (id : MessageId) (q : ℕ) (s : Receiver)
    → 0 < d
    → Receiving bytes d l id q s
    → ((i : ℕ) → i * d < l → Held i (s.heap q))
    → ((s.heap q).state ≡ completed) × (contains q s.received_messages ≡ true)
all_stored_complete bytes d l id q s positive r held =
    let m = s.heap q in
    let full : held_count m.num_expected_packets m.packets ≡ m.num_expected_packets =
      held_count-all m.num_expected_packets m.packets (λ i lt.
        held i (expected_below i d l positive (subst (λ k. i < k) r.finding.fills.expected lt))) in
    elim r.progress.phase [
      | inl (less, busy) ↦ absurd (omega (arith, less, full, r.progress.counted))
      | inr (enough, done, waits) ↦ (done, waits)
    ]

module _ (bytes : ℕ → ℕ) (d l : ℕ) (id : MessageId) (incoming : ℕ → Incoming)
    (positive : 0 < d) where
  -- One packet of a message that is found, and the first packet of one that is not.
  step_known :
      (q i : ℕ) (t : Transport)
      → IsPacketOf bytes d l id i (incoming i).packet
      → Receiving bytes d l id q t.receiver
      → (t' : Transport) × (process_packet (incoming i) t ≡ some t')
        × Stored bytes d l id q i t.receiver t'.receiver
  unfolding process_packet dispatch
  step_known q i t p r =
      let a : Incoming = incoming i in
      let (s', e, st) =
        handle_data_packet_known bytes d l q a.address a.source_ip p.header a.packet t.receiver
          (subst (λ k. k < max_message_packets) (sym p.same_index) p.low)
          (subst (λ k. k < (l + d - 1) / d) (sym p.same_index)
            (expected_above i d l positive p.inside))
          (subst (λ k. CarriesBytes bytes d l k a.packet) (sym p.same_index) p.carries)
          (subst (λ k. Receiving bytes d l k q t.receiver) (sym p.same_id) r) in
      (
        record t { receiver = s' },
        rw (p.read, e) refl,
        subst (λ k. Stored bytes d l id q k t.receiver s') p.same_index
            (subst (λ k. Stored bytes d l k q p.header.index t.receiver s') p.same_id st),
      )

  step_new :
      (i : ℕ) (t : Transport)
      → t.receiver.config.max_payload_size ≡ d + data_header_size
      → IsPacketOf bytes d l id i (incoming i).packet
      → find_message t.receiver id ≡ none
      → (t' : Transport) × (process_packet (incoming i) t ≡ some t')
        × Receiving bytes d l id (incoming i).address t'.receiver
        × Held i (t'.receiver.heap (incoming i).address)
  unfolding process_packet dispatch
  step_new i t payload p missing =
      let a : Incoming = incoming i in
      let h : DataHeader = p.header in
      let size : t.receiver.config.max_payload_size - data_header_size ≡ d =
        omega (arith, payload) in
      let (s', e, r, held) =
        handle_data_packet_new bytes a.address a.source_ip h a.packet t.receiver
          (subst (λ k. k < max_message_packets) (sym p.same_index) p.low)
          (rw (size, p.same_length, p.same_index) (expected_above i d l positive p.inside))
          (rw (size, p.same_length, p.same_index) p.carries)
          (subst (λ k. find_message t.receiver k ≡ none) (sym p.same_id) missing) in
      (
        record t { receiver = s' },
        rw (p.read, e) refl,
        subst (λ k. Receiving bytes k l id a.address s') size
            (subst
              (λ k.
                Receiving bytes (t.receiver.config.max_payload_size - data_header_size) k id
                  a.address s')
              p.same_length
              (subst
                (λ k.
                  Receiving bytes (t.receiver.config.max_payload_size - data_header_size)
                    h.total_length k a.address s')
                p.same_id r)),
        subst (λ k. Held k (s'.heap a.address)) p.same_index held,
      )

  -- Packets of a message that is found, in any order and as often as they come.
  arrive_known :
      (q : ℕ) (indexes : List ℕ) (t : Transport)
      → All (λ i. IsPacketOf bytes d l id i (incoming i).packet) indexes
      → Receiving bytes d l id q t.receiver
      → (t' : Transport) × (process_packets (burst incoming indexes) t ≡ some t')
        × Receiving bytes d l id q t'.receiver
        × ((i : ℕ) → Held i (t.receiver.heap q) ⊎ IsIn i indexes → Held i (t'.receiver.heap q))
  unfolding process_packets burst
  arrive_known q [] t packets r =
      (t, refl, r, λ i h. elim h [ inl held ↦ held | inr never ↦ absurd never ])
  arrive_known q (j ∷ js) t (p, ps) r =
      let (t₁, e, st) = step_known q j t p r in
      let (t', e', r', held) = arrive_known q js t₁ ps st.receiving in
      (
        t',
        rw e e',
        r',
        λ i h. elim h [
          | inl before ↦ held i (inl (st.still i before))
          | inr (inl here) ↦ held i (inl (subst (λ k. Held k (t₁.receiver.heap q)) here st.here))
          | inr (inr later) ↦ held i (inr later)
        ],
      )

  -- Packets of a message that is new to the receiver, all of them in any order, and some more than once:
  -- the message is found, is complete and waits to be received, and `get` returns its bytes.
  pub arrive :
      (indexes : List ℕ) (t : Transport)
      → 0 < l
      → l ≤ d * max_message_packets
      → t.receiver.config.max_payload_size ≡ d + data_header_size
      → find_message t.receiver id ≡ none
      → All (λ i. IsPacketOf bytes d l id i (incoming i).packet) indexes
      → ((i : ℕ) → i * d < l → IsIn i indexes)
      → (t' : Transport) × (process_packets (burst incoming indexes) t ≡ some t')
        × (q : ℕ) × (find_message t'.receiver id ≡ some q)
        × ((t'.receiver.heap q).state ≡ completed)
        × (contains q t'.receiver.received_messages ≡ true)
        × ((offset count : ℕ)
            → get offset count (t'.receiver.heap q)
              ≡ some (copy bytes offset (min count (l - offset))))
  unfolding process_packets burst
  arrive [] t some_bytes limit payload missing packets all =
      absurd (all 0 (omega (arith, some_bytes)))
  arrive (j ∷ js) t some_bytes limit payload missing (p, ps) all =
      let a : ℕ = (incoming j).address in
      let (t₁, e, r, first) = step_new j t payload p missing in
      let (t', e', r', held) = arrive_known a js t₁ ps r in
      let complete : (i : ℕ) → i * d < l → Held i (t'.receiver.heap a) = (λ i inside.
        elim (all i inside) [
          | inl here ↦ held i (inl (subst (λ k. Held k (t₁.receiver.heap a)) here first))
          | inr later ↦ held i (inr later)
        ]) in
      let ended = all_stored_complete bytes d l id a t'.receiver positive r' complete in
      (
        t',
        rw e e',
        a,
        r'.finding.found,
        ended.0,
        ended.1,
        Fills-get bytes d l (t'.receiver.heap a) positive limit r'.finding.fills complete,
      )
