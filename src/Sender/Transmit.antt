-- ===== src/Sender/Transmit.antt =====
-- src/Sender.cc: sending what was granted, shortest remaining message first (`trySend`).
-- The iterator over the send queue is the address that it points to, `none` at the end.
use homa.Base.{
  ℕ, zero, suc, ◌+◌, ◌-◌, ◌*◌, ◌%◌, ◌^◌, true, false, Option, none, some, List, [], ◌∷◌, ◌++◌, ltb,
  leb, if◌then◌else◌, maybe, length, get_elem?,
}
use homa.Protocol.{MessageId, data_header_size}
use homa.Intrusive.{prioritize}
use homa.Sender.{
  sent, DataPacket, Message, num_packets, data_output, Sender, bucket_of, find_message, modify,
  set_state, cancel_timeouts, output, dequeue,
}
use homa.Intrusive.{front, after}
use homa.Intrusive.Sums.{total}
use homa.Sender.Messages.{compare_priority, destroy}

-- `std::next` of a node in a list
abbrev pub next_node : ℕ → List ℕ → Option ℕ
next_node p queue = front (after p queue)

-- One round of the inner loop, once the packet fits the driver's queue: the packet goes out, and the
-- message moves up by its fewer unsent bytes.
unfoldable pub send_packet : ℕ → DataPacket → Sender → Sender
send_packet p packet s =
    let m = s.heap p in
    let s₁ = output (data_output p m.info.packets_sent m.destination.ip m.info.priority) s in
    let s₂ =
      modify p
        (λ m. record m {
          info = record (m.info) {
            unsent_bytes = m.info.unsent_bytes - (packet.length - data_header_size);
          };
        })
        s₁ in
    let s₃ : Sender = record s₂ {
      send_queue = prioritize (compare_priority s₂.heap) p s₂.send_queue;
    } in
    modify p (λ m. record m { info = record (m.info) { packets_sent = m.info.packets_sent + 1 } })
      s₃

-- The inner loop, over the granted packets that are not sent: the estimate of the bytes in the
-- driver's queue (a `uint32_t`) and the sender, when it ends. A missing packet fails an assertion.
unfoldable pub send_packets : ℕ → ℕ → ℕ → Sender → ℕ × Sender
send_packets zero p queued s = (queued, s)
send_packets (suc n) p queued s =
    maybe (queued, s)
      (λ packet.
        let queued' = (queued + packet.length) % 2 ^ 32 in
        let rest = send_packets n p queued' (send_packet p packet s) in
        if ltb s.config.driver_queued_byte_limit queued' then (queued', s) else rest)
      (get_elem? (s.heap p).packets (s.heap p).info.packets_sent)

-- A message whose last packet has gone out leaves the queue.
unfoldable pub finish : ℕ → Sender → Sender
finish p s = dequeue p (set_state sent p s)

-- The packets that the inner loop may send.
abbrev pub sendable : Message → ℕ
sendable m = m.info.packets_granted - m.info.packets_sent

-- The outer loop, with the identifiers of the messages that it finished; `none` if the fuel runs out.
unfoldable pub transmit :
    ℕ → Option ℕ → List MessageId → ℕ → Sender → Option (List MessageId × Sender)
transmit zero it ids queued s = none
transmit (suc fuel) none ids queued s = some (ids, s)
transmit (suc fuel) (some p) ids queued s =
    let (queued', s') = send_packets (sendable (s.heap p)) p queued s in
    let m = s'.heap p in
    let next = next_node p s'.send_queue in
    let finished = transmit fuel next (ids ++ (m.info.id ∷ [])) queued' (finish p s') in
    let blocked = transmit fuel next ids queued' s' in
    if leb (num_packets m) m.info.packets_sent
    then finished
    else if leb m.info.packets_granted m.info.packets_sent
    then blocked
    else some (ids, record s' { send_ready = true })

-- `Sender::trySend` while it holds `queueMutex`; `queued` is `driver->getQueuedBytes()`.
unfoldable pub send_granted : ℕ → ℕ → Sender → Option (List MessageId × Sender)
send_granted fuel queued s =
    if s.send_ready
    then transmit fuel (front s.send_queue) [] queued (record s { send_ready = false })
    else some ([], s)

-- The end of `Sender::trySend` for one finished message: it is destroyed if the application has
-- dropped it, and needs no timeouts if it is not kept alive.
unfoldable pub settle : MessageId → Sender → Sender
settle id s = elim (find_message s id) [
  | none ↦ s
  | some p ↦
      if (s.heap p).held
      then (if (s.heap p).options.no_keep_alive then cancel_timeouts (bucket_of s id) p s else s)
      else destroy (bucket_of s id) p s
]

-- The loop over the finished messages, after `queueMutex` is released.
unfoldable pub settle_all : List MessageId → Sender → Sender
settle_all [] s = s
settle_all (id ∷ ids) s = settle_all ids (settle id s)

-- The packets that the outer loop may send from a queue.
abbrev pub pending : (ℕ → Message) → List ℕ → ℕ
pending heap = total (λ p. sendable (heap p))

-- Rounds that suffice for the outer loop: each passes a node, or takes one out of the queue, or sends
-- a packet and may go back.
unfoldable pub rounds : Sender → ℕ
rounds s =
    let size = length s.send_queue in (pending s.heap s.send_queue + size) * (size + 1) + size + 1

-- `Sender::trySend`
unfoldable pub try_send : ℕ → Sender → Option Sender
try_send queued s = elim (send_granted (rounds s) queued s) [
  | none ↦ none
  | some (ids, s') ↦ some (settle_all ids s')
]
