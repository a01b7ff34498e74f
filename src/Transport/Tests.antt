-- ===== src/Transport/Tests.antt =====
-- The transport's theorems at a DATA packet with an index out of bounds, and at a message of 150 bytes
-- whose two packets come in the wrong order, one of them twice.
use homa.Base.{refl, arith, [], ◌∷◌, ◌≡◌, ◌↔◌, true, false, none, maybe}
use homa.Protocol.{DataHeader, data_packet}
use homa.Protocol.Wire.{read_header, write_header}
use homa.Sender.Tests as SenderTests
use homa.Receiver.Tests as ReceiverTests
use homa.Transport.{Transport, Incoming, process_packet}
use homa.Sender.Buffer.{empty, append}
use homa.Receiver.{find_in, find_message, make_receiver}
use homa.Transport.Delivery.{Delivered, transfer}
use homa.Transport.Faults.{is_fault, process_packet-throws}

abbrev transport : Transport
transport = record { sender = SenderTests.fresh; receiver = ReceiverTests.fresh }

abbrev incoming : Incoming
incoming = record {
  source_ip = 9;
  packet = record {
    length = 131;
    payload =
        write_header (data_packet (record (SenderTests.packet.header) { index = 1024 })) (λ _. 0);
  };
  address = 4;
}

process_packet-throws_example :
    (process_packet incoming transport ≡ none)
    ↔ (maybe false is_fault (read_header incoming.packet.payload) ≡ true)
process_packet-throws_example = process_packet-throws incoming transport

abbrev header : DataHeader
header = record (SenderTests.packet.header) { unscheduled_index_limit = 2 }

fresh_empty : find_message transport.receiver header.id ≡ none
unfolding find_message find_in make_receiver
fresh_empty = refl

transfer_example :
    Delivered
      (λ i. i)
      150
      header
      (append (λ _ _. 0) (λ i. i) 150 (empty 100))
      9
      4
      (1 ∷ 0 ∷ 1 ∷ [])
      transport
unfolding make_receiver
transfer_example =
    transfer (λ _ _. 0) (λ i. i) 150 100 header 9 4 (1 ∷ 0 ∷ 1 ∷ []) transport (omega arith)
      (omega arith) (omega arith) (omega arith) refl fresh_empty (omega arith)
      (λ i inside. ground arith)
