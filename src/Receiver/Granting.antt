-- ===== src/Receiver/Granting.antt =====
-- src/Receiver.cc: one turn of the loop of `trySendGrants`.
use homa.Base.{
  ℕ, ◌+◌, ◌-◌, min, ◌≡◌, refl, sym, ap, ◌∙◌, subst, inl, inr, none, List, [], ◌∷◌, ◌++◌, leb, ◌==◌,
  if◌then◌else◌, ==_refl, Bool-cases, Option-cases, All,
}
use homa.Protocol.{MessageId, grant_packet}
use homa.Intrusive.Members.{All-remove}
use homa.Policy.{Scheduled}
use homa.Receiver.{Output, Message, ScheduledMessageInfo, Receiver, modify_info, output}
use homa.Receiver.Schedule.{unschedule}
use homa.Receiver.Grants.{needs_grant, granted_info, send_grant, grant_message}

-- What a GRANT tells of a message, and what no turn changes.
pub record Subject : Type 0 where
  pub id : MessageId
  pub ip : ℕ
  pub length : ℕ
  pub remaining : ℕ

abbrev pub subject : Message → Subject
subject m = record {
  id = m.id;
  ip = m.source.ip;
  length = m.info.message_length;
  remaining = m.info.bytes_remaining;
}

-- The GRANT of a message: to its source, up to the policy's largest number of bytes beyond what was
-- received, and at most the message.
abbrev pub grant_output : Scheduled → (priority : ℕ) → Subject → Output
grant_output policy priority m = record {
  ip = m.ip;
  packet = grant_packet (record {
    id = m.id;
    byte_limit = min (m.length + policy.max_scheduled_bytes - m.remaining) m.length;
    priority = priority;
  });
}

-- Two states in which messages have the same subjects.
abbrev pub Kept : Receiver → Receiver → Type 0
Kept s t = (p : ℕ) → subject (t.heap p) ≡ subject (s.heap p)

Kept-modify_info :
    (p : ℕ) (f : ScheduledMessageInfo → ScheduledMessageInfo) (s : Receiver)
    → ((i : ScheduledMessageInfo)
        → ((f i).message_length ≡ i.message_length) × ((f i).bytes_remaining ≡ i.bytes_remaining))
    → Kept s (modify_info p f s)
Kept-modify_info p f s same q = elim (Bool-cases (q == p)) [
  | inl e ↦ rw e (rw ((same (s.heap q).info).0, (same (s.heap q).info).1) refl)
  | inr e ↦ rw e refl
]

Kept-unschedule : (p : ℕ) (s : Receiver) → Kept s (unschedule p s)
unfolding unschedule
Kept-unschedule p s = elim (Option-cases (s.heap p).info.peer) [
  | inl e ↦ rw e (λ q. refl)
  | inr (ip, e) ↦ rw e (Kept-modify_info p (λ i. record i { peer = none }) s (λ i. (refl, refl)))
]

outputs-unschedule : (p : ℕ) (s : Receiver) → (unschedule p s).outputs ≡ s.outputs
unfolding unschedule
outputs-unschedule p s = elim (Option-cases (s.heap p).info.peer) [
  | inl e ↦ rw e refl
  | inr (ip, e) ↦ rw e refl
]

-- The GRANT of a message, if it needs one.
unfoldable pub sent_grant : Scheduled → (priority : ℕ) → Message → List Output
sent_grant policy priority m =
    if needs_grant policy m.info then grant_output policy priority (subject m) ∷ [] else []

outputs-send_grant :
    (policy : Scheduled) (p : ℕ) (s : Receiver)
    → (send_grant policy p s).outputs
      ≡ sent_grant policy (s.heap p).info.priority (s.heap p) ++ s.outputs
unfolding send_grant output sent_grant
outputs-send_grant policy p s = elim (Bool-cases (needs_grant policy (s.heap p).info)) [
  | inl e ↦ rw e refl
  | inr e ↦ rw e refl
]

heap-send_grant :
    (policy : Scheduled) (p : ℕ) (s : Receiver) → (send_grant policy p s).heap ≡ s.heap
unfolding send_grant output
heap-send_grant policy p s = elim (Bool-cases (needs_grant policy (s.heap p).info)) [
  | inl e ↦ rw e refl
  | inr e ↦ rw e refl
]

module _ (policy : Scheduled) (priority p : ℕ) (s : Receiver) where
  chosen : Receiver
  chosen = modify_info p (λ i. record i { priority = priority }) s

  granted : Receiver
  granted = modify_info p (granted_info policy priority) (send_grant policy p chosen)

  Kept-granted : Kept s granted
  unfolding granted chosen granted_info
  Kept-granted q =
      Kept-modify_info p (granted_info policy priority) (send_grant policy p chosen)
        (λ i. (refl, refl)) q
      ∙ ap (λ (heap : ℕ → Message). subject (heap q)) (heap-send_grant policy p chosen)
      ∙ Kept-modify_info p (λ i. record i { priority = priority }) s (λ i. (refl, refl)) q

  outputs-granted : granted.outputs ≡ sent_grant policy priority (s.heap p) ++ s.outputs
  unfolding granted chosen sent_grant
  outputs-granted = outputs-send_grant policy p chosen ∙ (unfold sent_grant in rw ==_refl refl)

  pub Kept-grant_message : Kept s (grant_message policy priority p s)
  unfolding grant_message granted chosen
  Kept-grant_message q =
      elim (Bool-cases
        (leb (granted.heap p).info.message_length (granted.heap p).info.bytes_granted)) [
          | inl e ↦ rw e (Kept-unschedule p granted q ∙ Kept-granted q)
          | inr e ↦ rw e (Kept-granted q)
        ]

  pub outputs-grant_message :
      (grant_message policy priority p s).outputs
      ≡ sent_grant policy priority (s.heap p) ++ s.outputs
  unfolding grant_message granted chosen
  outputs-grant_message =
      elim (Bool-cases
        (leb (granted.heap p).info.message_length (granted.heap p).info.bytes_granted)) [
          | inl e ↦ rw e (outputs-unschedule p granted ∙ outputs-granted)
          | inr e ↦ rw e outputs-granted
        ]

-- What holds of all scheduled messages still does where one of them leaves the schedule.
All-unschedule :
    (P : ℕ → Type 0) (p : ℕ) (s : Receiver)
    → ((ip : ℕ) → All P (s.peer_table ip))
    → (ip : ℕ) → All P ((unschedule p s).peer_table ip)
unfolding unschedule
All-unschedule P p s a ip = elim (Option-cases (s.heap p).info.peer) [
  | inl e ↦ rw e (a ip)
  | inr (peer, e) ↦ elim (Bool-cases (ip == peer)) [
    | inl k ↦ rw (e, k) (All-remove P p (s.peer_table peer) (a peer))
    | inr k ↦ rw (e, k) (a ip)
  ]
]

peer_table-send_grant :
    (policy : Scheduled) (p : ℕ) (s : Receiver) → (send_grant policy p s).peer_table ≡ s.peer_table
unfolding send_grant output
peer_table-send_grant policy p s = elim (Bool-cases (needs_grant policy (s.heap p).info)) [
  | inl e ↦ rw e refl
  | inr e ↦ rw e refl
]

pub All-grant_message :
    (P : ℕ → Type 0) (policy : Scheduled) (priority p : ℕ) (s : Receiver)
    → ((ip : ℕ) → All P (s.peer_table ip))
    → (ip : ℕ) → All P ((grant_message policy priority p s).peer_table ip)
unfolding grant_message granted chosen
All-grant_message P policy priority p s a ip =
    elim (Bool-cases (leb (turned.heap p).info.message_length (turned.heap p).info.bytes_granted)) [
      | inl e ↦ rw e (All-unschedule P p turned kept ip)
      | inr e ↦ rw e (kept ip)
    ]
  where
    turned : Receiver
    turned = granted policy priority p s

    kept : (ip : ℕ) → All P (turned.peer_table ip)
    kept ip =
        subst (λ table. All P (table ip))
          (sym (peer_table-send_grant policy p (chosen policy priority p s))) (a ip)
