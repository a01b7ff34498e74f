-- ===== src/Receiver/Limits.antt =====
-- What the limits of GRANTs are, and which DATA packets are refused.
use homa.Base.{ℕ, ◌+◌, ◌≤◌, ◌≡◌, ◌↔◌, ◌⊎◌, inl, inr, none, arith, Option-cases}
use homa.Protocol.{DataHeader}
use homa.Policy.{Scheduled}
use homa.Receiver.{DriverPacket, ScheduledMessageInfo, Receiver, Message, find_message}
use homa.Receiver.Messages.{set_packet}
use homa.Receiver.Handlers.{store, handle_data_packet}
use homa.Receiver.Grants.{granted_info}

-- In the turn of a scheduled message, of which at most the whole is granted, the granted bytes never
-- shrink and never exceed the message; afterwards the policy's least number of bytes is granted and
-- not received, or the whole message is granted. The policy's least number is at most its largest.
pub granted_info_lem :
    (policy : Scheduled) (priority : ℕ) (i : ScheduledMessageInfo)
    → policy.min_scheduled_bytes ≤ policy.max_scheduled_bytes
    → i.bytes_granted ≤ i.message_length
    → i.bytes_granted ≤ (granted_info policy priority i).bytes_granted
      × (granted_info policy priority i).bytes_granted ≤ i.message_length
      × (i.message_length + policy.min_scheduled_bytes
            ≤ (granted_info policy priority i).bytes_granted + i.bytes_remaining
          ⊎ (granted_info policy priority i).bytes_granted ≡ i.message_length)
unfolding granted_info
granted_info_lem policy priority i le whole = ground arith

set_packet-throws :
    (index : ℕ) (packet : DriverPacket) (m : Message)
    → (set_packet index packet m ≡ none) ↔ (1024 ≤ index)
unfolding set_packet
set_packet-throws index packet m = ground arith

store-throws :
    (b p index : ℕ) (packet : DriverPacket) (s : Receiver)
    → (store b p index packet s ≡ none) ↔ (1024 ≤ index)
unfolding store
store-throws b p index packet s = ground (arith, set_packet-throws index packet (s.heap p))

-- A DATA packet makes the receiver throw exactly if its index is 1024 or more, whatever messages the
-- receiver holds.
pub handle_data_packet-throws :
    (p source_ip : ℕ) (h : DataHeader) (packet : DriverPacket) (s : Receiver)
    → (handle_data_packet p source_ip h packet s ≡ none) ↔ (1024 ≤ h.index)
unfolding handle_data_packet
handle_data_packet-throws p source_ip h packet s = elim (Option-cases (find_message s h.id)) [
  | inl e ↦ rw e (store-throws _ p h.index packet _)
  | inr (q, e) ↦ rw e (store-throws _ q h.index packet s)
]
