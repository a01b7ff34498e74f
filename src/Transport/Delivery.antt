-- ===== src/Transport/Delivery.antt =====
-- src/Sender.cc, src/TransportImpl.cc, src/Receiver.cc: what was appended to a message is what the
-- receiver's message gives back.
use homa.Base.{
  true, ℕ, ◌+◌, ◌-◌, ◌*◌, ◌≤◌, ◌<◌, min, ◌≡◌, refl, sym, ap, ◌∙◌, subst, ◌↔◌, Option, none, some,
  List, arith, maybe, All, All-map,
}
use homa.Protocol.{DataHeader, data_packet, data_header_size}
use homa.Protocol.Wire.{header_size, Payload}
use homa.Protocol.RoundTrip.{Fits, read_header-write_header}
use homa.Sender.Buffer.{OutPacket, Buffer, empty, append, accepted}
use homa.Sender.Filling.{byte_at}
use homa.Sender.Appending.{IsWhole, append-IsWhole, empty-IsWhole, append-Appended}
use homa.Sender.Metadata.{headed, fill_headers, fill_headers_lem, Headed}
use homa.Intrusive.{contains}
use homa.Receiver.{completed, DriverPacket, find_message, max_message_packets}
use homa.Receiver.Messages.{copy, get}
use homa.Transport.{Transport, Incoming, process_packets}
use homa.Transport.Transfer.{IsIn, burst, IsPacketOf, arrive}

-- A packet of the sender as the receiver's driver returns it.
abbrev pub received : Option OutPacket → DriverPacket
received o =
    maybe (record { length = 0; payload = λ _. 0 })
      (λ p. record { length = p.length; payload = p.payload }) o

-- A packet of a buffer as the receiver's driver returns it.
unfoldable pub arrived : Buffer → (source_ip address index : ℕ) → Incoming
arrived b source_ip address index = record {
  source_ip = source_ip;
  packet = received (b.packets index);
  address = address;
}

-- The bytes of a message stand in its packets.
abbrev HasBytes : (ℕ → ℕ) → Buffer → Type 0
HasBytes bytes b =
    (i o : ℕ)
    → o < b.packet_data_length
    → i * b.packet_data_length + o < b.message_length
    → byte_at b i o ≡ bytes (i * b.packet_data_length + o)

few : (i num d l : ℕ) → 0 < d → i < num → num * d < l + d → l ≤ d * 1024 → i < 1024
few i num d l positive below tight limit = grind arith

enough : (i num d l : ℕ) → i * d < l → l ≤ num * d → i < num
enough i num d l inside covers = grind arith

-- Each packet, once it has its header, is the packet of its index.
module _ (bytes : ℕ → ℕ) (h : DataHeader) (b b' : Buffer) (whole : IsWhole b)
    (has : HasBytes bytes b)
    (fits : Fits (data_packet (record h { total_length = b.message_length; index = 0 })))
    (f : Headed (record h { total_length = b.message_length }) b.num_packets 0 b b')
    (source_ip address : ℕ) where
  abbrev header_at : ℕ → DataHeader
  header_at i = record h { total_length = b.message_length; index = i }

  arrived-IsPacketOf :
      (i : ℕ)
      → i * b.packet_data_length < b.message_length
      → IsPacketOf bytes b.packet_data_length b.message_length h.id i
          (arrived b' source_ip address i).packet
  unfolding arrived headed header_size
  arrived-IsPacketOf i inside =
      let below : i < b.num_packets =
        enough i b.num_packets b.packet_data_length b.message_length inside whole.filled.covers in
      let low : i < 1024 =
        few i b.num_packets b.packet_data_length b.message_length whole.positive below
          whole.filled.tight whole.limit in
      let (p, at, _) = whole.filled.present i below in
      let here = f.has_header i p (omega arith) (omega (arith, below)) at in
      let (back, apart) =
        read_header-write_header (data_packet (header_at i)) p.payload (omega (arith, fits, low)) in
      subst (λ o. IsPacketOf bytes b.packet_data_length b.message_length h.id i (received o))
        (sym here)
        (record {
          header = header_at i;
          read = back;
          same_id = refl;
          same_length = refl;
          same_index = refl;
          low = low;
          inside = inside;
          carries = λ o inside_packet within.
              apart (o + data_header_size) (omega arith)
              ∙ subst
                  (λ r.
                    maybe 0 (λ q. q.payload (o + data_header_size)) r
                    ≡ bytes (i * b.packet_data_length + o))
                  at (has i o inside_packet within);
        })

-- The first bytes of a new message.
module _ (memory : ℕ → Payload) (source : ℕ → ℕ) (l d : ℕ) (positive : 0 < d)
    (limit : l ≤ d * max_message_packets) where
  abbrev appended : Buffer
  appended = append memory source l (empty d)

  appended-message_length : appended.message_length ≡ l
  unfolding append empty
  appended-message_length = ground arith

  appended-packet_data_length : appended.packet_data_length ≡ d
  unfolding empty
  appended-packet_data_length =
      (append-Appended memory source l (empty d) (empty-IsWhole d positive)).size

  appended-HasBytes : HasBytes source appended
  unfolding empty
  appended-HasBytes i o inside within =
      let f = append-Appended memory source l (empty d) (empty-IsWhole d positive) in
      let size : appended.packet_data_length ≡ d = appended-packet_data_length in
      let level : i * appended.packet_data_length + o ≡ i * d + o = ap (λ k. i * k + o) size in
      let total : appended.message_length ≡ l = appended-message_length in
      let taken : accepted l (empty d) ≡ l = ground arith in
      f.new i o (omega (arith, size)) (omega arith) (omega (arith, level, total, taken))
      ∙ ap source (omega (arith, level))

-- A message that a sender wrote and whose packets came to a receiver: `fill_headers` found every packet,
-- the packets were processed without a throw, and the receiver has a message with the identifier, which is
-- complete and waits to be received, and of
-- which `get` returns the bytes from an offset on, as many as were asked for or as there are.
pub record Delivered (bytes : ℕ → ℕ) (l : ℕ) (h : DataHeader) (b : Buffer) (source_ip address : ℕ)
    (indexes : List ℕ) (t : Transport) : Type 0 where
  pub sent : Buffer
  pub filled : fill_headers h b ≡ some (sent, l)
  pub after : Transport
  pub processed : process_packets (burst (arrived sent source_ip address) indexes) t ≡ some after
  pub message : ℕ
  pub found : find_message after.receiver h.id ≡ some message
  pub is_complete : (after.receiver.heap message).state ≡ completed
  pub waits : contains message after.receiver.received_messages ≡ true
  pub bytes_of :
      (offset count : ℕ)
      → get offset count (after.receiver.heap message)
        ≡ some (copy bytes offset (min count (l - offset)))

deliver :
    (bytes : ℕ → ℕ) (h : DataHeader) (b : Buffer) (source_ip address : ℕ) (indexes : List ℕ)
    (t : Transport)
    → IsWhole b
    → HasBytes bytes b
    → 0 < b.message_length
    → Fits (data_packet (record h { total_length = b.message_length; index = 0 }))
    → t.receiver.config.max_payload_size ≡ b.packet_data_length + data_header_size
    → find_message t.receiver h.id ≡ none
    → All (λ i. i * b.packet_data_length < b.message_length) indexes
    → ((i : ℕ) → i * b.packet_data_length < b.message_length → IsIn i indexes)
    → Delivered bytes b.message_length h b source_ip address indexes t
deliver bytes h b source_ip address indexes t whole has some_bytes fits payload missing real all =
    let (b', e, f) = fill_headers_lem h b whole in
    let d : ℕ = b.packet_data_length in
    let l : ℕ = b.message_length in
    let packets : All (λ i. IsPacketOf bytes d l h.id i (arrived b' source_ip address i).packet)
        indexes =
      All-map (λ i. i * d < l)
        (λ i. IsPacketOf bytes d l h.id i (arrived b' source_ip address i).packet)
        (λ i inside. arrived-IsPacketOf bytes h b b' whole has fits f source_ip address i inside)
        indexes real in
    let (t', e', q, found, done, waits, reads) =
      arrive bytes d l h.id (arrived b' source_ip address) whole.positive indexes t some_bytes
        whole.limit payload missing packets all in
    record {
      sent = b';
      filled = e;
      after = t';
      processed = e';
      message = q;
      found = found;
      is_complete = done;
      waits = waits;
      bytes_of = reads;
    }

-- The bytes of a source are appended to a new message, `sendMessage` writes the headers, and the receiver's
-- driver returns the packets in any order, each of them once or more often: all headers are written, and the
-- receiver, to which the message is new, finds it under its identifier, complete and waiting to be received,
-- with a `get` that returns the bytes of the source. (There are no more of them than the limit, the fields of the header fit their widths,
-- and both ends have the same payload size.)
pub transfer :
    (memory : ℕ → Payload) (source : ℕ → ℕ) (l d : ℕ) (h : DataHeader) (source_ip address : ℕ)
    (indexes : List ℕ) (t : Transport)
    → 0 < d
    → 0 < l
    → l ≤ d * max_message_packets
    → Fits (data_packet (record h { total_length = l; index = 0 }))
    → t.receiver.config.max_payload_size ≡ d + data_header_size
    → find_message t.receiver h.id ≡ none
    → All (λ i. i * d < l) indexes
    → ((i : ℕ) → i * d < l → IsIn i indexes)
    → Delivered source l h (append memory source l (empty d)) source_ip address indexes t
transfer memory source l d h source_ip address indexes t positive some_bytes limit fits payload
      missing real all =
    let b : Buffer = append memory source l (empty d) in
    let total : b.message_length ≡ l = appended-message_length memory source l d positive limit in
    let size : b.packet_data_length ≡ d =
      appended-packet_data_length memory source l d positive limit in
    let inside : (i : ℕ) → (i * b.packet_data_length < b.message_length) ↔ (i * d < l) = λ i.
      subst (λ k. i * k < b.message_length ↔ i * d < l) (sym size)
        (subst (λ k. i * d < k ↔ i * d < l) (sym total) ((λ p. p), (λ p. p))) in
    subst (λ k. Delivered source k h b source_ip address indexes t) total
      (deliver source h b source_ip address indexes t
        (append-IsWhole memory source l (empty d) (empty-IsWhole d positive))
        (appended-HasBytes memory source l d positive limit)
        (subst (λ k. 0 < k) (sym total) some_bytes)
        (subst (λ k. Fits (data_packet (record h { total_length = k; index = 0 }))) (sym total)
          fits)
        (payload ∙ ap (λ k. k + data_header_size) (sym size)) missing
        (All-map (λ i. i * d < l) _ (λ i p. (inside i).1 p) indexes real)
        (λ i p. all i ((inside i).0 p)))
