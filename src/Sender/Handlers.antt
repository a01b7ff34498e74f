-- ===== src/Sender/Handlers.antt =====
-- src/Sender.cc: the handlers of incoming packets. Messages to the log are left out.
use homa.Base.{
  ℕ, zero, suc, ◌+◌, ◌-◌, ◌/◌, ◌%◌, ◌^◌, min, true, ◌&&◌, ◌||◌, List, [], ◌∷◌, ltb, leb,
  if◌then◌else◌, maybe,
}
use homa.Protocol.{MessageId, GrantHeader, ResendHeader, busy_packet}
use homa.Policy.{get_unscheduled_policy, get_resend_priority}
use homa.Intrusive.{remove}
use homa.Sender.{
  in_progress, completed, failed, is_in_progress, is_sent, DataPacket, num_packets, data_output,
  control_output, Config, Sender, bucket_of, find_message, modify, set_state, set_timeouts,
  cancel_timeouts, release_packet, output,
}
use homa.Sender.Messages.{unscheduled_index_limit, start_sending}

-- `Sender::handleDonePacket` on the message that it found.
unfoldable pub done : ℕ → ℕ → Sender → Sender
done b p s = if is_sent (s.heap p).state then set_state completed p (cancel_timeouts b p s) else s

-- `Sender::handleDonePacket`
unfoldable pub handle_done_packet : MessageId → Sender → Sender
handle_done_packet id s =
    release_packet (maybe s (λ p. done (bucket_of s id) p s) (find_message s id))

-- More packets may be sent: the common step of GRANT and RESEND.
unfoldable pub grant : ℕ → ℕ → ℕ → Sender → Sender
grant p limit priority s =
    if ltb (s.heap p).info.packets_granted limit
    then record (modify p
        (λ m. record m { info = record (m.info) { packets_granted = limit; priority = priority } })
        s) { send_ready = true }
    else s

-- The loop of `handleResendPacket` over `n` packets from index `i` on.
unfoldable pub resend_range : ℕ → ℕ → ℕ → ℕ → ℕ → Sender → Sender
resend_range p ip priority i zero s = s
resend_range p ip priority i (suc n) s =
    resend_range p ip priority (i + 1) n (output (data_output p i ip priority) s)

-- `Sender::handleResendPacket` within the message: the packets that were sent are sent again; if none
-- of them was, the answer is BUSY.
unfoldable pub answer_resend : ℕ → ℕ → ℕ → Sender → Sender
answer_resend p index resend_end s =
    let m = s.heap p in
    if leb m.info.packets_sent index
    then output (control_output m.info.destination.ip (busy_packet m.info.id)) s
    else resend_range p m.destination.ip (get_resend_priority s.policy_manager) index
        (min resend_end m.info.packets_sent - index) s

-- `Sender::handleResendPacket` on the message that it found.
unfoldable pub resend : ℕ → ℕ → ResendHeader → Sender → Sender
resend b p h s =
    let resend_end = h.index + h.num in
    let count = num_packets (s.heap p) in
    let s' = set_timeouts b p s in
    if ltb count 2
    then s
    else if leb count h.index || ltb count resend_end
    then s'
    else answer_resend p h.index resend_end (grant p resend_end h.priority s')

-- `Sender::handleResendPacket`
unfoldable pub handle_resend_packet : ResendHeader → Sender → Sender
handle_resend_packet h s =
    release_packet (maybe s (λ p. resend (bucket_of s h.id) p h s) (find_message s h.id))

-- The packet that holds the last granted byte counts as granted. `uint32_t` plus `int` is computed in
-- 32 bits.
unfoldable pub incoming_grant_index : Config → ℕ → ℕ
incoming_grant_index c byte_limit =
    ((byte_limit + c.packet_data_length - 1) % 2 ^ 32) / c.packet_data_length

-- `Sender::handleGrantPacket` on the message that it found.
unfoldable pub granted : ℕ → ℕ → GrantHeader → Sender → Sender
granted b p h s =
    let s' = set_timeouts b p s in
    let limit = min (incoming_grant_index s.config h.byte_limit) (num_packets (s.heap p)) in
    if is_in_progress (s.heap p).state then grant p limit h.priority s' else s'

-- `Sender::handleGrantPacket`
unfoldable pub handle_grant_packet : GrantHeader → Sender → Sender
handle_grant_packet h s =
    release_packet (maybe s (λ p. granted (bucket_of s h.id) p h s) (find_message s h.id))

-- A message of several packets leaves the send queue if it is still there.
unfoldable pub leave_queue : ℕ → Sender → Sender
leave_queue p s = record s {
  send_queue =
      if ltb 1 (num_packets (s.heap p)) && is_in_progress (s.heap p).state
      then remove p s.send_queue
      else s.send_queue;
}

-- The loop that updates the policy in the headers.
unfoldable pub update_headers : ℕ → ℕ → List DataPacket → List DataPacket
update_headers version limit [] = []
update_headers version limit (packet ∷ packets) =
    record packet {
      header = record (packet.header) {
        policy_version = version;
        unscheduled_index_limit = limit % 2 ^ 16;
      };
    }
    ∷ update_headers version limit packets

-- `Sender::handleUnknownPacket`, the branch that sends the message once more.
unfoldable pub restart : ℕ → ℕ → Sender → Sender
restart b p s =
    let s₁ = set_state in_progress p (leave_queue p s) in
    let m = s.heap p in
    let (policy, manager) =
      get_unscheduled_policy s.policy_manager m.destination.ip m.message_length in
    let limit = unscheduled_index_limit s.config policy in
    let s₂ : Sender =
      record (modify p (λ m. record m { packets = update_headers policy.version limit m.packets })
        s₁) { policy_manager = manager } in
    start_sending b p policy limit (set_timeouts b p s₂)

-- `Sender::handleUnknownPacket` on the message that it found.
unfoldable pub unknown : ℕ → ℕ → Sender → Sender
unknown b p s =
    let m = s.heap p in
    if is_in_progress m.state || is_sent m.state
    then (if m.options.no_retry
        then set_state failed p (cancel_timeouts b p (leave_queue p s))
        else restart b p s)
    else s

-- `Sender::handleUnknownPacket`
unfoldable pub handle_unknown_packet : MessageId → Sender → Sender
handle_unknown_packet id s =
    release_packet (maybe s (λ p. unknown (bucket_of s id) p s) (find_message s id))

-- `Sender::handleErrorPacket` on the message that it found.
unfoldable pub error : ℕ → ℕ → Sender → Sender
error b p s = if is_sent (s.heap p).state then set_state failed p (cancel_timeouts b p s) else s

-- `Sender::handleErrorPacket`
unfoldable pub handle_error_packet : MessageId → Sender → Sender
handle_error_packet id s =
    release_packet (maybe s (λ p. error (bucket_of s id) p s) (find_message s id))
