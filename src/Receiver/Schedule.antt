-- ===== src/Receiver/Schedule.antt =====
-- src/Receiver.cc: `schedule`, `unschedule` and `updateSchedule`, which keep peers and their messages
-- in the order of the bytes that remain.
use homa.Base.{ℕ, Bool, false, not, none, some, List, [], ◌∷◌, ltb, ◌==◌, if◌then◌else◌, maybe}
use homa.Intrusive.{remove, contains, push_front, deprioritize, prioritize, front, after}
use homa.Receiver.{Message, Receiver, modify_info}

-- `ScheduledMessageInfo::ComparePriority`
abbrev pub compare_messages : (ℕ → Message) → ℕ → ℕ → Bool
compare_messages heap a b = ltb (heap a).info.bytes_remaining (heap b).info.bytes_remaining

-- The bytes that remain for the first of a list of messages.
abbrev pub first_remaining : (ℕ → Message) → List ℕ → ℕ
first_remaining heap ps = maybe 0 (λ p. (heap p).info.bytes_remaining) (front ps)

-- `Peer::ComparePriority`; both peers hold messages.
abbrev pub compare_peers : (ℕ → Message) → (ℕ → List ℕ) → ℕ → ℕ → Bool
compare_peers heap table a b = ltb (first_remaining heap (table a)) (first_remaining heap (table b))

-- Whether the address is that of the front of the list.
abbrev pub is_front : ℕ → List ℕ → Bool
is_front p ps = maybe false (λ q. q == p) (front ps)

-- A write to the list of a peer.
abbrev pub set_peer : ℕ → List ℕ → (ℕ → List ℕ) → ℕ → List ℕ
set_peer ip ps table a = if a == ip then ps else table a

-- `Receiver::schedule`
unfoldable pub schedule : ℕ → Receiver → Receiver
schedule p s =
    let ip = (s.heap p).source.ip in
    let messages = deprioritize (compare_messages s.heap) p (push_front p (s.peer_table ip)) in
    let s' = modify_info p (λ i. record i { peer = some ip }) s in
    let table = set_peer ip messages s.peer_table in
    let comp = compare_peers s'.heap table in
    record s' {
      peer_table = table;
      scheduled_peers =
          if not (contains ip s.scheduled_peers)
          then deprioritize comp ip (push_front ip s.scheduled_peers)
          else if is_front p messages
          then prioritize comp ip s.scheduled_peers
          else s.scheduled_peers;
    }

-- The new order of the peers, once the list of one of them got shorter.
unfoldable pub reorder : (ℕ → ℕ → Bool) → ℕ → List ℕ → List ℕ → List ℕ
reorder comp ip messages peers = elim messages [
  | [] ↦ remove ip peers
  | q ∷ qs ↦
      maybe peers (λ n. if comp n ip then deprioritize comp ip peers else peers)
        (front (after ip peers))
]

-- `Receiver::unschedule`, for a message that its peer holds.
unfoldable pub unschedule : ℕ → Receiver → Receiver
unschedule p s =
    maybe s
      (λ ip.
        let messages = remove p (s.peer_table ip) in
        let s' = modify_info p (λ i. record i { peer = none }) s in
        let table = set_peer ip messages s.peer_table in
        record s' {
          peer_table = table;
          scheduled_peers = reorder (compare_peers s'.heap table) ip messages s.scheduled_peers;
        })
      (s.heap p).info.peer

-- `Receiver::updateSchedule`, for a message that its peer holds.
unfoldable pub update_schedule : ℕ → Receiver → Receiver
update_schedule p s =
    maybe s
      (λ ip.
        let messages = prioritize (compare_messages s.heap) p (s.peer_table ip) in
        let table = set_peer ip messages s.peer_table in
        record s {
          peer_table = table;
          scheduled_peers =
              if is_front p messages
              then prioritize (compare_peers s.heap table) ip s.scheduled_peers
              else s.scheduled_peers;
        })
      (s.heap p).info.peer
