-- ===== src/Sender/Packets.antt =====
-- What an incoming packet does to the sender: `TransportImpl::processPacket` for the packets that it
-- hands to the sender.
use homa.Base.{ℕ, ◌≡◌, inl, inr, some, maybe, Option-cases}
use homa.Protocol.{MessageId, Packet, busy_packet, ping_packet}
use homa.Sender.{Sender, bucket_of, find_message, release_packet}
use homa.Protocol.{
  data_packet, grant_packet, done_packet, resend_packet, unknown_packet, error_packet,
}
use homa.Sender.Handlers.{
  done, handle_done_packet, resend, handle_resend_packet, granted, handle_grant_packet, unknown,
  handle_unknown_packet, error, handle_error_packet,
}
use homa.Sender.Queue.{IsValid}
use homa.Sender.Invariant.{done-IsValid, error-IsValid, resend-IsValid, granted-IsValid}
use homa.Sender.Sending.{unknown-IsValid}

-- The cases of `processPacket` that call the sender; DATA, BUSY and PING are the receiver's.
unfoldable pub handle_packet : Packet → Sender → Sender
handle_packet (grant_packet h) s = handle_grant_packet h s
handle_packet (done_packet id) s = handle_done_packet id s
handle_packet (resend_packet h) s = handle_resend_packet h s
handle_packet (unknown_packet id) s = handle_unknown_packet id s
handle_packet (error_packet id) s = handle_error_packet id s
handle_packet (data_packet h) s = s
handle_packet (busy_packet id) s = s
handle_packet (ping_packet id) s = s

-- What a handler does after it has looked up its message holds if it holds on both outcomes.
pub found_cases :
    (P : Sender → Type 0) (s : Sender) (id : MessageId) (f : ℕ → Sender → Sender)
    → P s
    → ((p : ℕ) → find_message s id ≡ some p → P (f p s))
    → P (maybe s (λ p. f p s) (find_message s id))
found_cases P s id f missing found = elim (Option-cases (find_message s id)) [
  | inl e ↦ rw e missing
  | inr (p, e) ↦ rw e (found p e)
]

-- Every incoming packet keeps the invariant of the sender: exactly the messages in progress are queued,
-- each once, in the order of their unsent bytes, with consistent counts of sent and granted packets.
pub handle_packet-IsValid :
    (packet : Packet) (s : Sender) → IsValid s → IsValid (handle_packet packet s)
unfolding handle_packet handle_grant_packet handle_done_packet handle_resend_packet
    handle_unknown_packet handle_error_packet release_packet
handle_packet-IsValid (grant_packet h) s v =
    found_cases IsValid s h.id (λ p. granted (bucket_of s h.id) p h) v
      (λ p _. granted-IsValid _ p h s v)
handle_packet-IsValid (done_packet id) s v =
    found_cases IsValid s id (λ p. done (bucket_of s id) p) v (λ p _. done-IsValid _ p s v)
handle_packet-IsValid (resend_packet h) s v =
    found_cases IsValid s h.id (λ p. resend (bucket_of s h.id) p h) v
      (λ p _. resend-IsValid _ p h s v)
handle_packet-IsValid (unknown_packet id) s v =
    found_cases IsValid s id (λ p. unknown (bucket_of s id) p) v (λ p _. unknown-IsValid _ p s v)
handle_packet-IsValid (error_packet id) s v =
    found_cases IsValid s id (λ p. error (bucket_of s id) p) v (λ p _. error-IsValid _ p s v)
handle_packet-IsValid (data_packet h) s v = v
handle_packet-IsValid (busy_packet id) s v = v
handle_packet-IsValid (ping_packet id) s v = v
