-- ===== src/Sender/Races.antt =====
-- src/Sender.cc: what may happen between the loop of `trySend` and what it does afterwards for a message
-- that was sent in full, when `queueMutex` is free again and the mutex of the bucket not yet taken.
use homa.Base.{
  ℕ, ◌≡◌, refl, ap, ◌∙◌, subst, ◌||◌, inl, inr, true, false, some, List, [], ◌∷◌, arith, ◌==◌,
  if◌then◌else◌, ==_refl, Bool-cases,
}
use homa.Protocol.{MessageId, unknown_packet}
use homa.Policy.{Unscheduled, get_unscheduled_policy}
use homa.Intrusive.{contains}
use homa.Intrusive.Members.{contains_iff}
use homa.Sender.{
  in_progress, Message, num_packets, Sender, is_sent, is_in_progress, bucket_of, find_in,
  find_message, modify, set_state, set_timeouts, cancel_timeouts, release_packet,
}
use homa.Sender.Messages.{unscheduled_index_limit, destroy, start_sending, enqueue, reset_info}
use homa.Sender.Handlers.{leave_queue, restart, unknown, handle_unknown_packet, update_headers}
use homa.Sender.Transmit.{settle}
use homa.Sender.Packets.{handle_packet, handle_packet-IsValid}
use homa.Sender.Queue.{IsValid}
use homa.Sender.Sending.{length-update_headers}

-- Messages are found by identifiers that do not change.
find_in-modify :
    (p : ℕ) (f : Message → Message) (heap : ℕ → Message) (id : MessageId)
    → ((m : Message) → (f m).id ≡ m.id)
    → (ps : List ℕ)
    → find_in (λ q. if q == p then f (heap q) else heap q) id ps ≡ find_in heap id ps
unfolding find_in
find_in-modify p f heap id same [] = refl
find_in-modify p f heap id same (x ∷ ps) = elim (Bool-cases (x == p)) [
  | inl e ↦ rw (e, same (heap x), find_in-modify p f heap id same ps) refl
  | inr e ↦ rw (e, find_in-modify p f heap id same ps) refl
]

find_message-modify :
    (p : ℕ) (f : Message → Message) (s : Sender) (id : MessageId)
    → ((m : Message) → (f m).id ≡ m.id)
    → find_message (modify p f s) id ≡ find_message s id
unfolding find_message
find_message-modify p f s id same = find_in-modify p f s.heap id same _

find_message-set_timeouts :
    (b p : ℕ) (s : Sender) (id : MessageId)
    → find_message (set_timeouts b p s) id ≡ find_message s id
unfolding find_message set_timeouts
find_message-set_timeouts b p s id = elim (Bool-cases (bucket_of s id == b)) [
  | inl e ↦ rw e refl
  | inr e ↦ rw e refl
]

find_message-enqueue :
    (p : ℕ) (policy : Unscheduled) (limit : ℕ) (s : Sender) (id : MessageId)
    → find_message (enqueue p policy limit s) id ≡ find_message s id
unfolding find_message enqueue reset_info
find_message-enqueue p policy limit s id =
    find_in-modify p (reset_info policy limit) s.heap id (λ m. refl) _

-- After `destroy` the message is given back.
settle-dropped :
    (id : MessageId) (s : Sender) (p : ℕ)
    → find_message s id ≡ some p
    → (s.heap p).held ≡ false
    → ((settle id s).allocated p ≡ false)
      × ((settle id s).heap ≡ s.heap)
      × ((settle id s).send_queue ≡ s.send_queue)
unfolding settle destroy cancel_timeouts
settle-dropped id s p found dropped =
    rw (found, settle) (rw dropped (rw (==_refl p) refl, refl, refl))

-- What `restart` does to a message of several packets.
module _ (b p : ℕ) (s : Sender) (several : (num_packets (s.heap p) == 1) ≡ false) where
  policy : Unscheduled
  policy =
      (get_unscheduled_policy s.policy_manager (s.heap p).destination.ip
        (s.heap p).message_length).0

  limit : ℕ
  limit = unscheduled_index_limit s.config policy

  update : Message → Message
  update m = record m { packets = update_headers policy.version limit m.packets }

  rewritten : Sender
  rewritten = record (modify p update (set_state in_progress p (leave_queue p s))) {
    policy_manager =
        (get_unscheduled_policy s.policy_manager (s.heap p).destination.ip
          (s.heap p).message_length).1;
  }

  still_several : (num_packets ((set_timeouts b p rewritten).heap p) == 1) ≡ false
  unfolding set_state set_timeouts leave_queue rewritten update
  still_several =
      rw ==_refl (rw (length-update_headers policy.version limit (s.heap p).packets) several)

  restart-enqueue : restart b p s ≡ enqueue p policy limit (set_timeouts b p rewritten)
  unfolding restart start_sending set_state set_timeouts leave_queue rewritten update limit policy
  restart-enqueue = rw still_several refl

  queued_again :
      (((enqueue p policy limit (set_timeouts b p rewritten)).heap p).held ≡ (s.heap p).held)
      × (is_in_progress ((enqueue p policy limit (set_timeouts b p rewritten)).heap p).state ≡ true)
  unfolding enqueue set_timeouts rewritten update set_state reset_info leave_queue
  queued_again = (rw ==_refl refl, rw ==_refl refl)

  found_again :
      (id : MessageId)
      → find_message (enqueue p policy limit (set_timeouts b p rewritten)) id ≡ find_message s id
  unfolding find_message rewritten update set_state leave_queue
  found_again id =
      find_message-enqueue p policy limit (set_timeouts b p rewritten) id
      ∙ find_message-set_timeouts b p rewritten id
      ∙ find_message-modify p update (set_state in_progress p (leave_queue p s)) id (λ m. refl)
      ∙ find_message-modify p (λ m. record m { state = in_progress }) (leave_queue p s) id
          (λ m. refl)

module _ (id : MessageId) (s : Sender) (p : ℕ) (found : find_message s id ≡ some p)
    (was_sent : is_sent (s.heap p).state ≡ true) (retry : (s.heap p).options.no_retry ≡ false)
    (several : (num_packets (s.heap p) == 1) ≡ false) where
  again : Sender
  again = release_packet (
      enqueue p (policy (bucket_of s id) p s several) (limit (bucket_of s id) p s several)
        (set_timeouts (bucket_of s id) p (rewritten (bucket_of s id) p s several)))

  active : (is_in_progress (s.heap p).state || is_sent (s.heap p).state) ≡ true
  active = ground arith

  unknown-again : handle_packet (unknown_packet id) s ≡ again
  unfolding handle_packet handle_unknown_packet unknown again
  unknown-again = rw (found, active, retry, restart-enqueue (bucket_of s id) p s several) refl

  again-found : find_message again id ≡ some p
  unfolding again release_packet find_message
  again-found = found_again (bucket_of s id) p s several id ∙ found

  again-heap :
      ((again.heap p).held ≡ (s.heap p).held) × (is_in_progress (again.heap p).state ≡ true)
  unfolding again release_packet
  again-heap = queued_again (bucket_of s id) p s several

-- A race: `trySend` has sent the last packet of a message that the application has dropped and that
-- may be retried, one of several packets, and has released `queueMutex`; before it takes the mutex of
-- the bucket, UNKNOWN comes in for the message. Then `trySend` gives the message back to the
-- allocator while it is queued and in progress again.
pub restart_race :
    (id : MessageId) (s : Sender) (p : ℕ)
    → IsValid s
    → find_message s id ≡ some p
    → is_sent (s.heap p).state ≡ true
    → (s.heap p).held ≡ false
    → (s.heap p).options.no_retry ≡ false
    → (num_packets (s.heap p) == 1) ≡ false
    → let t = settle id (handle_packet (unknown_packet id) s) in
      (t.allocated p ≡ false)
      × (is_in_progress (t.heap p).state ≡ true)
      × (contains p t.send_queue ≡ true)
restart_race id s p v found was_sent dropped retry several =
    let e = unknown-again id s p found was_sent retry several in
    let u = again id s p found was_sent retry several in
    let h = again-heap id s p found was_sent retry several in
    let w : IsValid u = subst IsValid e (handle_packet-IsValid (unknown_packet id) s v) in
    let k =
      settle-dropped id u p (again-found id s p found was_sent retry several) (h.0 ∙ dropped) in
    let linked : contains p u.send_queue ≡ true =
      (contains_iff p u.send_queue).1 (ground (arith, w.ordered.members p, h.1)) in
    rw e (k.0, ap (λ heap. is_in_progress (heap p).state) k.1 ∙ h.1, ap (contains p) k.2 ∙ linked)
