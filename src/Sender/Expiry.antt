-- ===== src/Sender/Expiry.antt =====
-- src/Sender.cc: what happens to messages on which nothing was heard for too long.
use homa.Base.{
  ℕ, zero, suc, ◌+◌, ◌%◌, ◌^◌, ◌&&◌, ◌||◌, Option, none, some, ltb, if◌then◌else◌, length,
}
use homa.Protocol.{ping_packet}
use homa.Timeout.{Timeout, TimeoutManager, set_timeout, cancel_timeout, any_elapsed, has_elapsed}
use homa.Timeout
use homa.Sender.{
  failed, is_in_progress, is_sent, is_completed, is_failed, control_output, Sender, modify_bucket,
  set_state, cancel_timeouts, output, dequeue,
}
use homa.Sender.Transmit.{try_send}

-- `Sender::checkMessageTimeouts` on the first message, whose timeout has elapsed.
unfoldable pub expire_message : ℕ → ℕ → Sender → Sender
expire_message b p s =
    let st = (s.heap p).state in
    let s' = if is_in_progress st then dequeue p s else s in
    cancel_timeouts b p (if is_completed st then s else set_state failed p s')

-- The loop of `checkMessageTimeouts`; `none` if the fuel runs out.
unfoldable pub message_timeout_loop : ℕ → ℕ → ℕ → Sender → Option Sender
message_timeout_loop zero now b s = none
message_timeout_loop (suc fuel) now b s = elim (Timeout.front (s.buckets b).message_timeouts) [
  | none ↦ some s
  | some t ↦
      let rest = message_timeout_loop fuel now b (expire_message b t.owner s) in
      if has_elapsed now t then rest else some s
]

-- `Sender::checkMessageTimeouts`: each round takes one timeout out of the list.
unfoldable pub check_message_timeouts : ℕ → ℕ → Sender → Option Sender
check_message_timeouts now b s =
    let timeouts = (s.buckets b).message_timeouts in
    if any_elapsed now timeouts
    then message_timeout_loop (suc (length timeouts.list)) now b s
    else some s

-- `pingTimeouts.setTimeout`
unfoldable pub set_ping_timeout : ℕ → ℕ → Sender → Sender
set_ping_timeout b p s =
    record (modify_bucket b
      (λ k. record k { ping_timeouts = set_timeout (s.config.rdtsc s.reads) p k.ping_timeouts })
      s) { reads = s.reads + 1 }

-- `pingTimeouts.cancelTimeout`
unfoldable pub cancel_ping_timeout : ℕ → ℕ → Sender → Sender
cancel_ping_timeout b p s =
    modify_bucket b (λ k. record k { ping_timeouts = cancel_timeout p k.ping_timeouts }) s

-- `Sender::checkPingTimeouts` on the first message, whose timeout has elapsed.
unfoldable pub expire_ping : ℕ → ℕ → Sender → Sender
expire_ping b p s =
    let m = s.heap p in
    let s' = set_ping_timeout b p s in
    if is_completed m.state || is_failed m.state
    then cancel_ping_timeout b p s
    else if m.options.no_keep_alive && is_sent m.state
    then cancel_timeouts b p s
    else if is_in_progress m.state && ltb m.info.packets_sent m.info.packets_granted
    then s'
    else output (control_output m.destination.ip (ping_packet m.id)) s'

-- The loop of `checkPingTimeouts`; `none` if the fuel runs out.
unfoldable pub ping_timeout_loop : ℕ → ℕ → ℕ → Sender → Option Sender
ping_timeout_loop zero now b s = none
ping_timeout_loop (suc fuel) now b s = elim (Timeout.front (s.buckets b).ping_timeouts) [
  | none ↦ some s
  | some t ↦
      let rest = ping_timeout_loop fuel now b (expire_ping b t.owner s) in
      if has_elapsed now t then rest else some s
]

-- `Sender::checkPingTimeouts`: each round takes the first timeout out of the list, or sets it anew.
unfoldable pub check_ping_timeouts : ℕ → ℕ → Sender → Option Sender
check_ping_timeouts now b s =
    let timeouts = (s.buckets b).ping_timeouts in
    if any_elapsed now timeouts
    then ping_timeout_loop (suc (length timeouts.list)) now b s
    else some s

-- `Sender::checkTimeouts`: one bucket at each call, in turn.
unfoldable pub check_timeouts : Sender → Option Sender
check_timeouts s =
    let b = s.next_bucket_index % 256 in
    let now = s.config.rdtsc s.reads in
    let s' : Sender = record s {
      next_bucket_index = (s.next_bucket_index + 1) % 2 ^ 32;
      reads = s.reads + 1;
    } in
    elim (check_ping_timeouts now b s') [
      | none ↦ none
      | some s'' ↦ check_message_timeouts now b s''
    ]

-- `Sender::poll`; `queued` is `driver->getQueuedBytes()`.
unfoldable pub poll : ℕ → Sender → Option Sender
poll queued s = elim (try_send queued s) [ none ↦ none | some s' ↦ check_timeouts s' ]
