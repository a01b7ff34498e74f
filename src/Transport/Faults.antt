-- ===== src/Transport/Faults.antt =====
-- Which incoming packets make the transport throw.
use homa.Base.{◌≡◌, ◌↔◌, inl, inr, Bool, true, false, none, arith, leb, maybe, Option-cases}
use homa.Protocol.{
  Packet, data_packet, grant_packet, done_packet, resend_packet, busy_packet, ping_packet,
  unknown_packet, error_packet,
}
use homa.Protocol.Wire.{read_header}
use homa.Receiver.Limits.{handle_data_packet-throws}
use homa.Transport.{Transport, Incoming, dispatch, process_packet}

-- The header is that of a DATA packet of which the index is 1024 or more.
abbrev pub is_fault : Packet → Bool
is_fault (data_packet h) = leb 1024 h.index
is_fault _ = false

dispatch-throws :
    (i : Incoming) (h : Packet) (t : Transport) → (dispatch i h t ≡ none) ↔ (is_fault h ≡ true)
unfolding dispatch
dispatch-throws i (data_packet h) t =
    ground (arith, handle_data_packet-throws i.address i.source_ip h i.packet t.receiver)
dispatch-throws i (grant_packet h) t = ground arith
dispatch-throws i (done_packet h) t = ground arith
dispatch-throws i (resend_packet h) t = ground arith
dispatch-throws i (busy_packet h) t = ground arith
dispatch-throws i (ping_packet h) t = ground arith
dispatch-throws i (unknown_packet h) t = ground arith
dispatch-throws i (error_packet h) t = ground arith

-- An incoming packet makes the transport throw exactly if it is a DATA packet with an index of 1024 or
-- more, whatever state the transport is in.
pub process_packet-throws :
    (i : Incoming) (t : Transport)
    → (process_packet i t ≡ none) ↔ (maybe false is_fault (read_header i.packet.payload) ≡ true)
unfolding process_packet dispatch
process_packet-throws i t = elim (Option-cases (read_header i.packet.payload)) [
  | inl e ↦ rw e (ground arith)
  | inr (h, e) ↦ rw e (dispatch-throws i h t)
]
