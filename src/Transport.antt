-- ===== src/Transport.antt =====
-- src/TransportImpl.cc: the transport, which hands each incoming packet to its sender or receiver.
-- The two share a policy manager; the receiver only reads the scheduled policy, which never changes,
-- so each keeps its own copy here. The pools and the driver's queue enter as arguments.
pub mod Faults
pub mod Transfer
pub mod Delivery
mod Tests
use homa.Base.{ℕ, Option, none, some, List, [], ◌∷◌, maybe}
use homa.Protocol.{
  Packet, data_packet, grant_packet, done_packet, resend_packet, busy_packet, ping_packet,
  unknown_packet, error_packet,
}
use homa.Protocol.Wire.{read_header}
use homa.Sender.{Sender}
use homa.Sender.Handlers.{
  handle_done_packet, handle_resend_packet, handle_grant_packet, handle_unknown_packet,
  handle_error_packet,
}
use homa.Sender.Expiry as SenderExpiry
use homa.Receiver.{Receiver, DriverPacket}
use homa.Receiver.Handlers.{handle_data_packet, handle_busy_packet, handle_ping_packet}
use homa.Receiver.Expiry as ReceiverExpiry

-- `TransportImpl`
pub record Transport : Type 0 where
  pub sender : Sender
  pub receiver : Receiver

-- A packet that the driver received: where it came from, the driver's packet, and the address that the
-- pool of messages would construct a new message at.
pub record Incoming : Type 0 where
  pub source_ip : ℕ
  pub packet : DriverPacket
  pub address : ℕ

-- The cases of `processPacket`.
unfoldable pub dispatch : Incoming → Packet → Transport → Option Transport
dispatch i (data_packet h) t =
    maybe none (λ r. some (record t { receiver = r }))
      (handle_data_packet i.address i.source_ip h i.packet t.receiver)
dispatch i (grant_packet h) t = some (record t { sender = handle_grant_packet h t.sender })
dispatch i (done_packet id) t = some (record t { sender = handle_done_packet id t.sender })
dispatch i (resend_packet h) t = some (record t { sender = handle_resend_packet h t.sender })
dispatch i (busy_packet id) t = some (record t { receiver = handle_busy_packet id t.receiver })
dispatch i (ping_packet id) t =
    some (record t { receiver = handle_ping_packet i.source_ip id t.receiver })
dispatch i (unknown_packet id) t = some (record t { sender = handle_unknown_packet id t.sender })
dispatch i (error_packet id) t = some (record t { sender = handle_error_packet id t.sender })

-- `TransportImpl::processPacket`: the header is read from the payload, and nothing is done for an
-- opcode that the switch does not name.
unfoldable pub process_packet : Incoming → Transport → Option Transport
process_packet i t = maybe (some t) (λ h. dispatch i h t) (read_header i.packet.payload)

-- `TransportImpl::processPackets`, on the burst that `receivePackets` returned.
unfoldable pub process_packets : List Incoming → Transport → Option Transport
process_packets [] t = some t
process_packets (i ∷ is) t = maybe none (process_packets is) (process_packet i t)

-- `TransportImpl::poll`
unfoldable pub poll : List Incoming → (queued : ℕ) → Transport → Option Transport
poll burst queued t =
    maybe none
      (λ t'.
        maybe none
          (λ s.
            maybe none (λ r. some (record { sender = s; receiver = r }))
              (ReceiverExpiry.poll t'.receiver))
          (SenderExpiry.poll queued t'.sender))
      (process_packets burst t)
