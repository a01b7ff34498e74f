-- ===== src/Receiver/Expiry.antt =====
-- src/Receiver.cc: `checkMessageTimeouts`, `checkResendTimeouts`, `checkTimeouts` and `poll`.
use homa.Base.{
  ℕ, zero, suc, ◌+◌, ◌-◌, ◌*◌, ◌/◌, ◌%◌, ◌^◌, not, Option, none, some, List, [], ◌∷◌, ltb, leb,
  if◌then◌else◌, maybe, length,
}
use homa.Receiver.{
  dropped, is_in_progress, Message, max_message_packets, Receiver, modify, set_resend_timeout,
  cancel_message_timeout, cancel_resend_timeout, output,
}
use homa.Protocol.{resend_packet}
use homa.Timeout.{Timeout, TimeoutManager, any_elapsed, has_elapsed}
use homa.Timeout
use homa.Receiver.Messages.{Range, runs, is_stored}
use homa.Receiver.Handlers.{discard}
use homa.Receiver.Grants.{try_send_grants}

-- `Receiver::checkMessageTimeouts` on the first message, whose timeout has elapsed.
unfoldable pub expire_message : ℕ → ℕ → Receiver → Receiver
expire_message b p s =
    let s' = cancel_resend_timeout b p (cancel_message_timeout b p s) in
    if is_in_progress (s.heap p).state
    then discard b p s'
    else modify p (λ m. record m { state = dropped }) s'

-- The loop of `checkMessageTimeouts`; `none` if the fuel runs out.
unfoldable pub message_timeout_loop : ℕ → ℕ → ℕ → Receiver → Option Receiver
message_timeout_loop zero now b s = none
message_timeout_loop (suc fuel) now b s = elim (Timeout.front (s.buckets b).message_timeouts) [
  | none ↦ some s
  | some t ↦
      let rest = message_timeout_loop fuel now b (expire_message b t.owner s) in
      if has_elapsed now t then rest else some s
]

-- `Receiver::checkMessageTimeouts`: each round takes one timeout out of the list.
unfoldable pub check_message_timeouts : ℕ → ℕ → Receiver → Option Receiver
check_message_timeouts now b s =
    let timeouts = (s.buckets b).message_timeouts in
    if any_elapsed now timeouts
    then message_timeout_loop (suc (length timeouts.list)) now b s
    else some s

-- `grantIndexLimit`: the packets that the sender may send, `none` if all granted bytes have come.
unfoldable pub grant_index_limit : Message → Option ℕ
grant_index_limit m =
    let i = m.info in
    if not m.scheduled
    then some m.num_unscheduled_packets
    else if leb (i.bytes_granted + i.bytes_remaining) i.message_length
    then none
    else if ltb (m.num_unscheduled_packets * m.packet_data_length) i.bytes_granted
    then some ((i.bytes_granted + m.packet_data_length - 1) / m.packet_data_length)
    else some m.num_unscheduled_packets

-- The packets below the limit that are missing; a limit above 1024 makes `getPacket` throw.
unfoldable pub missing_ranges : Message → ℕ → Option (List Range)
missing_ranges m limit =
    if leb limit max_message_packets
    then some (runs (λ i. not (is_stored m i)) limit 0 0 0)
    else none

-- A RESEND for each range, in order; `downCast` checks that both numbers fit 16 bits.
unfoldable pub send_resends : Message → List Range → Receiver → Receiver
send_resends m [] s = s
send_resends m (r ∷ rs) s = send_resends m rs (
    output m.source.ip
      (resend_packet
        (record { id = m.id; index = r.index; num = r.num; priority = m.info.priority }))
      s)

-- `Receiver::checkResendTimeouts` on the first message, whose timeout has elapsed.
unfoldable pub expire_resend : ℕ → ℕ → Receiver → Option Receiver
expire_resend b p s =
    let m = s.heap p in
    let s' = set_resend_timeout b p s in
    maybe (some s')
      (λ limit. maybe none (λ ranges. some (send_resends m ranges s')) (missing_ranges m limit))
      (grant_index_limit m)

-- The loop of `checkResendTimeouts`; `none` if the fuel runs out, or a round throws.
unfoldable pub resend_timeout_loop : ℕ → ℕ → ℕ → Receiver → Option Receiver
resend_timeout_loop zero now b s = none
resend_timeout_loop (suc fuel) now b s = elim (Timeout.front (s.buckets b).resend_timeouts) [
  | none ↦ some s
  | some t ↦
      let rest = maybe none (resend_timeout_loop fuel now b) (expire_resend b t.owner s) in
      if has_elapsed now t then rest else some s
]

-- `Receiver::checkResendTimeouts`: each round sets the first timeout anew.
unfoldable pub check_resend_timeouts : ℕ → ℕ → Receiver → Option Receiver
check_resend_timeouts now b s =
    let timeouts = (s.buckets b).resend_timeouts in
    if any_elapsed now timeouts
    then resend_timeout_loop (suc (length timeouts.list)) now b s
    else some s

-- `Receiver::checkTimeouts`: one bucket at each call, in turn.
unfoldable pub check_timeouts : Receiver → Option Receiver
check_timeouts s =
    let b = s.next_bucket_index % 256 in
    let now = s.config.rdtsc s.reads in
    let s' : Receiver = record s {
      next_bucket_index = (s.next_bucket_index + 1) % 2 ^ 32;
      reads = s.reads + 1;
    } in
    maybe none (check_message_timeouts now b) (check_resend_timeouts now b s')

-- `Receiver::poll`
unfoldable pub poll : Receiver → Option Receiver
poll s = check_timeouts (try_send_grants s)
