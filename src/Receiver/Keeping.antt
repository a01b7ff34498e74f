-- ===== src/Receiver/Keeping.antt =====
-- src/Receiver.cc: what the receiver's bookkeeping leaves alone.
-- Scheduling, timeouts and completion change neither the packets of a message nor the lists of the
-- buckets, so a message that was found is found again.
use homa.Base.{
  ◌+◌, arith, ◌<◌, ◌≤◌, ◌⊎◌, ltb, true, [], ℕ, ◌-◌, ◌≡◌, refl, ap, ◌∙◌, inl, inr, none, some, List,
  [], ◌∷◌, ltb, ◌==◌, ==_refl, by_address, Bool-cases, Option-cases,
}
use homa.Protocol.{MessageId, bucket_index}
use homa.Receiver.{
  in_progress, DriverPacket, ScheduledMessageInfo, Message, Receiver, find_in, find_message,
  modify_info, set_message_timeout, set_resend_timeout, cancel_resend_timeout, bucket_of,
}
use homa.Receiver.Schedule.{schedule, update_schedule}
use homa.Receiver.{completed, release_packets}
use homa.Intrusive.{contains, push_back}
use homa.Receiver.Handlers.{account, complete, added}

-- A message but for its state and its scheduling information.
abbrev pub bare : Message → Message
bare m = record m {
  state = in_progress;
  info = record {
    message_length = 0;
    bytes_remaining = 0;
    bytes_granted = 0;
    priority = 0;
    peer = none;
  };
}

-- The same messages at the same addresses of the same buckets.
pub record Keeps (s s' : Receiver) : Type 0 where
  pub messages : (q : ℕ) → bare (s'.heap q) ≡ bare (s.heap q)
  pub lists : (b : ℕ) → (s'.buckets b).messages ≡ (s.buckets b).messages
  pub config : s'.config ≡ s.config

pub Keeps-trans : (s s' s'' : Receiver) → Keeps s s' → Keeps s' s'' → Keeps s s''
Keeps-trans s s' s'' k l = record {
  messages = λ q. l.messages q ∙ k.messages q;
  lists = λ b. l.lists b ∙ k.lists b;
  config = l.config ∙ k.config;
}

-- A search by identifier finds the same address.
pub find_in-congr :
    (heap heap' : ℕ → Message) (id : MessageId) (ps : List ℕ)
    → ((q : ℕ) → (heap' q).id ≡ (heap q).id)
    → find_in heap' id ps ≡ find_in heap id ps
unfolding find_in
find_in-congr heap heap' id [] same = refl
find_in-congr heap heap' id (p ∷ ps) same = rw (same p, find_in-congr heap heap' id ps same) refl

pub find_message-Keeps :
    (s s' : Receiver) (id : MessageId) → Keeps s s' → find_message s' id ≡ find_message s id
unfolding find_message
find_message-Keeps s s' id k =
    let at : bucket_of s' id ≡ bucket_of s id = ap (λ c. bucket_index c.hash id) k.config in
    rw (at, k.lists (bucket_of s id))
      (find_in-congr s.heap s'.heap id _ (λ q. ap (λ m. m.id) (k.messages q)))

-- So are their states, and the messages that wait to be received.
pub record Quiet (s s' : Receiver) : Type 0 where
  pub messages : (q : ℕ) → bare (s'.heap q) ≡ bare (s.heap q)
  pub lists : (b : ℕ) → (s'.buckets b).messages ≡ (s.buckets b).messages
  pub config : s'.config ≡ s.config
  pub states : (q : ℕ) → (s'.heap q).state ≡ (s.heap q).state
  pub received : s'.received_messages ≡ s.received_messages

pub Quiet-refl : (s : Receiver) → Quiet s s
Quiet-refl s = record {
  messages = λ q. refl;
  lists = λ b. refl;
  config = refl;
  states = λ q. refl;
  received = refl;
}

pub Quiet-trans : (s s' s'' : Receiver) → Quiet s s' → Quiet s' s'' → Quiet s s''
Quiet-trans s s' s'' k l = record {
  messages = λ q. l.messages q ∙ k.messages q;
  lists = λ b. l.lists b ∙ k.lists b;
  config = l.config ∙ k.config;
  states = λ q. l.states q ∙ k.states q;
  received = l.received ∙ k.received;
}

pub keeps : (s s' : Receiver) → Quiet s s' → Keeps s s'
keeps s s' k = record { messages = k.messages; lists = k.lists; config = k.config }

pub release-Quiet : (s : Receiver) → Quiet s (release_packets 1 s)
unfolding release_packets
release-Quiet s = record {
  messages = λ q. refl;
  lists = λ b. refl;
  config = refl;
  states = λ q. refl;
  received = refl;
}

modify_info-Quiet :
    (p : ℕ) (f : ScheduledMessageInfo → ScheduledMessageInfo) (s : Receiver)
    → Quiet s (modify_info p f s)
modify_info-Quiet p f s = record {
  messages = λ q.
      by_address (λ q. bare ((modify_info p f s).heap q) ≡ bare (s.heap q)) p q (rw ==_refl refl)
        (λ e. rw e refl);
  lists = λ b. refl;
  config = refl;
  states = λ q.
      by_address (λ q. ((modify_info p f s).heap q).state ≡ (s.heap q).state) p q (rw ==_refl refl)
        (λ e. rw e refl);
  received = refl;
}

pub schedule-Quiet : (p : ℕ) (s : Receiver) → Quiet s (schedule p s)
unfolding schedule
schedule-Quiet p s =
    let k = modify_info-Quiet p (λ i. record i { peer = some (s.heap p).source.ip }) s in
    record {
      messages = k.messages;
      lists = k.lists;
      config = k.config;
      states = k.states;
      received = k.received;
    }

update_schedule-Quiet : (p : ℕ) (s : Receiver) → Quiet s (update_schedule p s)
unfolding update_schedule
update_schedule-Quiet p s = elim (Option-cases (s.heap p).info.peer) [
  | inl e ↦ rw e (Quiet-refl s)
  | inr (ip, e) ↦ rw e (record {
    messages = λ q. refl;
    lists = λ b. refl;
    config = refl;
    states = λ q. refl;
    received = refl;
  })
]

account-Quiet : (p : ℕ) (packet : DriverPacket) (s : Receiver) → Quiet s (account p packet s)
unfolding account
account-Quiet p packet s = elim (Bool-cases (s.heap p).scheduled) [
  | inr off ↦ rw off (Quiet-refl s)
  | inl on ↦ elim (Option-cases (s.heap p).info.peer) [
    | inl e ↦ rw (on, e) (Quiet-refl s)
    | inr (ip, e) ↦
        let lower : ScheduledMessageInfo → ScheduledMessageInfo = (λ i. record i {
          bytes_remaining = i.bytes_remaining + (s.heap p).transport_header_length - packet.length;
        }) in
        let lowered : Receiver = modify_info p lower s in
        rw (on, e)
          (Quiet-trans s lowered (update_schedule p lowered) (modify_info-Quiet p lower s)
            (update_schedule-Quiet p lowered))
  ]
]

set_message_timeout-Quiet : (b p : ℕ) (s : Receiver) → Quiet s (set_message_timeout b p s)
unfolding set_message_timeout
set_message_timeout-Quiet b p s = record {
  messages = λ q. refl;
  lists = λ c. elim (Bool-cases (c == b)) [ inl e ↦ rw e refl | inr e ↦ rw e refl ];
  config = refl;
  states = λ q. refl;
  received = refl;
}

set_resend_timeout-Quiet : (b p : ℕ) (s : Receiver) → Quiet s (set_resend_timeout b p s)
unfolding set_resend_timeout
set_resend_timeout-Quiet b p s = record {
  messages = λ q. refl;
  lists = λ c. elim (Bool-cases (c == b)) [ inl e ↦ rw e refl | inr e ↦ rw e refl ];
  config = refl;
  states = λ q. refl;
  received = refl;
}

complete-Keeps : (b p : ℕ) (s : Receiver) → Keeps s (complete b p s)
unfolding complete cancel_resend_timeout
complete-Keeps b p s = record {
  messages = λ q.
      by_address (λ q. bare ((complete b p s).heap q) ≡ bare (s.heap q)) p q (rw ==_refl refl)
        (λ e. rw e refl);
  lists = λ c. elim (Bool-cases (c == b)) [ inl e ↦ rw e refl | inr e ↦ rw e refl ];
  config = refl;
}

-- A message that lacks packets goes on as it was, and one that lacks none is complete and waits.
pub record Added (p : ℕ) (s s' : Receiver) : Type 0 where
  pub kept : Keeps s s'
  pub phase :
      (((s.heap p).num_packets < (s.heap p).num_expected_packets) × Quiet s s')
      ⊎ (((s.heap p).num_expected_packets ≤ (s.heap p).num_packets)
          × ((s'.heap p).state ≡ completed)
          × (contains p s'.received_messages ≡ true))

contains-push_back : (n : ℕ) (xs : List ℕ) → contains n (push_back n xs) ≡ true
contains-push_back n [] = rw ==_refl refl
contains-push_back n (x ∷ xs) = ground (arith, contains-push_back n xs)

complete_lem :
    (b p : ℕ) (s : Receiver)
    → (((complete b p s).heap p).state ≡ completed)
      × (contains p (complete b p s).received_messages ≡ true)
unfolding complete cancel_resend_timeout
complete_lem b p s = (rw (==_refl p) refl, contains-push_back p s.received_messages)

pub added-Added : (b p : ℕ) (packet : DriverPacket) (s : Receiver) → Added p s (added b p packet s)
unfolding added
added-Added b p packet s =
    let s₁ : Receiver = account p packet s in
    let s₂ : Receiver = set_message_timeout b p s₁ in
    let k : Quiet s s₂ =
      Quiet-trans s s₁ s₂ (account-Quiet p packet s) (set_message_timeout-Quiet b p s₁) in
    let num : (s₂.heap p).num_packets ≡ (s.heap p).num_packets =
      ap (λ m. m.num_packets) (k.messages p) in
    let all : (s₂.heap p).num_expected_packets ≡ (s.heap p).num_expected_packets =
      ap (λ m. m.num_expected_packets) (k.messages p) in
    elim (Bool-cases (ltb (s₂.heap p).num_packets (s₂.heap p).num_expected_packets)) [
      | inl e ↦
          let t : Quiet s (set_resend_timeout b p s₂) =
            Quiet-trans s s₂ (set_resend_timeout b p s₂) k (set_resend_timeout-Quiet b p s₂) in
          rw e (record {
            kept = keeps s (set_resend_timeout b p s₂) t;
            phase = inl (ground (arith, num, all, e), t);
          })
      | inr e ↦ rw e (record {
        kept = Keeps-trans s s₂ (complete b p s₂) (keeps s s₂ k) (complete-Keeps b p s₂);
        phase = inr (ground (arith, num, all, e), (complete_lem b p s₂).0, (complete_lem b p s₂).1);
      })
    ]
