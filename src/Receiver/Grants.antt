-- ===== src/Receiver/Grants.antt =====
-- src/Receiver.cc: `trySendGrants`, as one thread runs it.
-- Differences of `int`s that may be negative are compared as sums; `receivedBytes` of a message, its
-- length less the bytes that remain, is such a difference.
use homa.Base.{
  ℕ, zero, suc, ◌+◌, ◌-◌, min, Bool, Option, none, some, List, ltb, leb, if◌then◌else◌, maybe,
  length,
}
use homa.Receiver.{ScheduledMessageInfo, Receiver, modify_info, output}
use homa.Protocol.{grant_packet}
use homa.Intrusive.{front, after}
use homa.Policy.{Scheduled, get_scheduled_policy}
use homa.Receiver.Schedule.{unschedule}

-- Whether too few bytes are granted and unreceived.
abbrev pub needs_grant : Scheduled → ScheduledMessageInfo → Bool
needs_grant policy i =
    ltb (i.bytes_granted + i.bytes_remaining) (i.message_length + policy.min_scheduled_bytes)

-- `newGrantLimit`
abbrev pub new_grant_limit : Scheduled → ScheduledMessageInfo → ℕ
new_grant_limit policy i =
    min (i.message_length + policy.max_scheduled_bytes - i.bytes_remaining) i.message_length

-- The scheduling information of a message after its turn.
unfoldable pub granted_info : Scheduled → ℕ → ScheduledMessageInfo → ScheduledMessageInfo
granted_info policy priority i = record i {
  priority = priority;
  bytes_granted = if needs_grant policy i then new_grant_limit policy i else i.bytes_granted;
}

-- The GRANT that a message gets in its turn, if any.
unfoldable pub send_grant : Scheduled → ℕ → Receiver → Receiver
send_grant policy p s =
    let m = s.heap p in
    if needs_grant policy m.info
    then output m.source.ip
        (grant_packet (record {
          id = m.id;
          byte_limit = new_grant_limit policy m.info;
          priority = m.info.priority;
        }))
        s
    else s

-- The turn of a message; when all of it is granted, it leaves the schedule.
unfoldable pub grant_message : Scheduled → (priority p : ℕ) → Receiver → Receiver
grant_message policy priority p s =
    let s₁ = modify_info p (λ i. record i { priority = priority }) s in
    let s₂ = modify_info p (granted_info policy priority) (send_grant policy p s₁) in
    let i = (s₂.heap p).info in if leb i.message_length i.bytes_granted then unschedule p s₂ else s₂

-- `unusedPriorities`; the code takes the larger of 0 and the difference.
abbrev pub unused_priorities : Scheduled → List ℕ → ℕ
unused_priorities policy peers = policy.max_scheduled_priority + 1 - length peers

-- The loop, with so many slots left. `it` is the peer that the iterator points at, `none` at the end; it
-- moves on before the turn of the peer's first message.
unfoldable pub grant_loop :
    (left : ℕ) → Scheduled → (unused slot : ℕ) → (it : Option ℕ) → Receiver → Receiver
grant_loop zero policy unused slot it s = s
grant_loop (suc left) policy unused slot none s = s
grant_loop (suc left) policy unused slot (some ip) s =
    maybe s
      (λ p.
        grant_loop left policy unused (slot + 1) (front (after ip s.scheduled_peers))
          (grant_message policy (policy.max_scheduled_priority - slot - unused) p s))
      (front (s.peer_table ip))

-- `Receiver::trySendGrants`
unfoldable pub try_send_grants : Receiver → Receiver
try_send_grants s =
    let policy = get_scheduled_policy s.policy_manager in
    if s.granting
    then s
    else grant_loop policy.degree_overcommitment policy (unused_priorities policy s.scheduled_peers)
        0 (front s.scheduled_peers) s
