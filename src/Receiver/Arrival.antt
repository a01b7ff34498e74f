-- ===== src/Receiver/Arrival.antt =====
-- src/Receiver.cc: what a message holds while its packets come in, whatever their order.
use homa.Base.{
  arith, ◌/◌, ◌-◌, ◌+◌, sym, ℕ, ◌+◌, ◌-◌, ◌*◌, ◌<◌, ◌≡◌, refl, sym, ap, ◌∙◌, subst, inl, inr, true,
  none, some, arith, ltb, ◌==◌, if◌then◌else◌, ==_iff, ==_refl, by_address, maybe, Bool-cases,
  Option-cases,
}
use homa.Protocol.{MessageId, data_header_size}
use homa.Receiver.{
  DriverPacket, Message, Receiver, find_message, max_message_packets, modify, release_packets,
}
use homa.Receiver.Messages.{set_packet}
use homa.Receiver.Handlers.{added, store}
use homa.Receiver.Keeping.{
  bare, Keeps, Quiet, keeps, Added, find_in-congr, find_message-Keeps, added-Added, release-Quiet,
}
use homa.Receiver.Completion.{
  Progress, IsCounting, held_count-missing, held_count-stored, Progress-Quiet, Progress-Added,
}
use homa.Receiver.{in_progress}

-- A packet carries, after its header, the bytes of a message that belong to its index.
abbrev pub CarriesBytes : (bytes : ℕ → ℕ) → (d message_length i : ℕ) → DriverPacket → Type 0
CarriesBytes bytes d message_length i packet =
    (o : ℕ)
    → o < d
    → i * d + o < message_length
    → packet.payload (o + data_header_size) ≡ bytes (i * d + o)

-- The message at an address has the given length, nothing of it is stripped, and whatever it holds carries its bytes.
pub record Fills (bytes : ℕ → ℕ) (d message_length : ℕ) (m : Message) : Type 0 where
  pub size : m.packet_data_length ≡ d
  pub header : m.transport_header_length ≡ data_header_size
  pub whole : m.message_length ≡ message_length
  pub unstripped : m.start ≡ 0
  pub expected : m.num_expected_packets ≡ (message_length + d - 1) / d
  pub carried :
      (i : ℕ) (packet : DriverPacket)
      → m.packets i ≡ some packet
      → CarriesBytes bytes d message_length i packet

-- A packet is held at an index.
abbrev pub Held : ℕ → Message → Type 0
Held i m = (packet : DriverPacket) × (m.packets i ≡ some packet)

-- Fields of a message but its state and information
Fills-bare :
    (bytes : ℕ → ℕ) (d l : ℕ) (m m' : Message)
    → bare m' ≡ bare m
    → Fills bytes d l m
    → Fills bytes d l m'
Fills-bare bytes d l m m' e f = record {
  size = ap (λ m. m.packet_data_length) e ∙ f.size;
  header = ap (λ m. m.transport_header_length) e ∙ f.header;
  whole = ap (λ m. m.message_length) e ∙ f.whole;
  unstripped = ap (λ m. m.start) e ∙ f.unstripped;
  expected = ap (λ m. m.num_expected_packets) e ∙ f.expected;
  carried = λ i packet at. f.carried i packet (sym (ap (λ m. m.packets i) e) ∙ at);
}

Held-bare : (i : ℕ) (m m' : Message) → bare m' ≡ bare m → Held i m → Held i m'
Held-bare i m m' e (packet, at) = (packet, ap (λ m. m.packets i) e ∙ at)

-- A message with an identifier is found at an address, and is being filled.
pub record Finding (bytes : ℕ → ℕ) (d l : ℕ) (id : MessageId) (q : ℕ) (s : Receiver) : Type 0 where
  pub found : find_message s id ≡ some q
  pub fills : Fills bytes d l (s.heap q)

-- It also counts its packets, and is complete when it holds them all.
pub record Receiving (bytes : ℕ → ℕ) (d l : ℕ) (id : MessageId) (q : ℕ) (s : Receiver)
    : Type 0 where
  pub finding : Finding bytes d l id q s
  pub progress : Progress q s

Finding-Keeps :
    (bytes : ℕ → ℕ) (d l : ℕ) (id : MessageId) (q : ℕ) (s s' : Receiver)
    → Keeps s s'
    → Finding bytes d l id q s
    → Finding bytes d l id q s'
Finding-Keeps bytes d l id q s s' k r = record {
  found = find_message-Keeps s s' id k ∙ r.found;
  fills = Fills-bare bytes d l (s.heap q) (s'.heap q) (k.messages q) r.fills;
}

pub Receiving-Quiet :
    (bytes : ℕ → ℕ) (d l : ℕ) (id : MessageId) (q : ℕ) (s s' : Receiver)
    → Quiet s s'
    → Receiving bytes d l id q s
    → Receiving bytes d l id q s'
Receiving-Quiet bytes d l id q s s' k r = record {
  finding = Finding-Keeps bytes d l id q s s' (keeps s s' k) r.finding;
  progress = Progress-Quiet q s s' k r.progress;
}

-- What a packet does to the message it belongs to.
pub record Stored (bytes : ℕ → ℕ) (d l : ℕ) (id : MessageId) (q index : ℕ) (s s' : Receiver)
    : Type 0 where
  pub receiving : Receiving bytes d l id q s'
  pub here : Held index (s'.heap q)
  pub still : (i : ℕ) → Held i (s.heap q) → Held i (s'.heap q)

-- The message with a packet that it did not hold.
abbrev grown : ℕ → DriverPacket → Message → Message
grown index packet m = record m {
  packets = λ i. if i == index then some packet else m.packets i;
  num_packets = m.num_packets + 1;
}

module _ (bytes : ℕ → ℕ) (d l : ℕ) (id : MessageId) (index : ℕ) (packet : DriverPacket)
    (low : index < max_message_packets) (inside : index < (l + d - 1) / d)
    (carries : CarriesBytes bytes d l index packet) where
  grown-Fills : (m : Message) → Fills bytes d l m → Fills bytes d l (grown index packet m)
  grown-Fills m f = record {
    size = f.size;
    header = f.header;
    whole = f.whole;
    unstripped = f.unstripped;
    expected = f.expected;
    carried = λ i p at. elim (Bool-cases (i == index)) [
      | inl e ↦
          let same : i ≡ index = (==_iff i index).0 e in
          let packet_same : packet ≡ p =
            ap (maybe packet (λ x. x))
              (subst (λ b. (if b then some packet else m.packets i) ≡ some p) e at) in
          subst (λ k. CarriesBytes bytes d l k p) (sym same)
            (subst (λ r. CarriesBytes bytes d l index r) packet_same carries)
      | inr e ↦ f.carried i p (subst (λ b. (if b then some packet else m.packets i) ≡ some p) e at)
    ];
  }

  grown-here : (m : Message) → Held index (grown index packet m)
  grown-here m = (packet, rw ==_refl refl)

  grown-Held : (m : Message) (i : ℕ) → Held i m → Held i (grown index packet m)
  grown-Held m i (p, at) = elim (Bool-cases (i == index)) [
    | inl e ↦ (packet, rw e refl)
    | inr e ↦ (p, rw e at)
  ]

  -- A message keeps what it holds, and is found again.
  module _ (q : ℕ) (s : Receiver) (r : Receiving bytes d l id q s) where
    abbrev larger : Receiver
    larger = modify q (λ _. grown index packet (s.heap q)) s

    larger_here : larger.heap q ≡ grown index packet (s.heap q)
    larger_here = rw ==_refl refl

    larger-Finding : Finding bytes d l id q larger
    unfolding find_message
    larger-Finding = record {
      found =
          find_in-congr s.heap larger.heap id _ (λ p.
            by_address (λ p. (larger.heap p).id ≡ (s.heap p).id) q p (rw ==_refl refl)
              (λ e. rw e refl))
          ∙ r.finding.found;
      fills = subst (Fills bytes d l) (sym larger_here) (grown-Fills (s.heap q) r.finding.fills);
    }

    -- A message that lacks a packet is in progress, and counts the packet when it comes.
    module _ (missing : (s.heap q).packets index ≡ none) where
      below_expected : index < (s.heap q).num_expected_packets
      below_expected = subst (λ k. index < k) (sym r.finding.fills.expected) inside

      is_busy : (s.heap q).state ≡ in_progress
      is_busy = elim r.progress.phase [
        | inl (less, busy) ↦ busy
        | inr (enough, done, waits) ↦
            let lacks =
              held_count-missing (s.heap q).num_expected_packets index (s.heap q).packets
                below_expected missing in
            absurd (omega (arith, enough, lacks, r.progress.counted))
      ]

      larger-IsCounting : IsCounting (larger.heap q)
      larger-IsCounting = subst IsCounting (sym larger_here) (
          ap (λ k. k + 1) r.progress.counted
          ∙ sym (
              held_count-stored (s.heap q).num_expected_packets index packet (s.heap q).packets
                below_expected missing))

      added-Stored : (b : ℕ) → Stored bytes d l id q index s (added b q packet larger)
      added-Stored b =
          let s' : Receiver = added b q packet larger in
          let k : Added q larger s' = added-Added b q packet larger in
          let same : bare (s'.heap q) ≡ bare (grown index packet (s.heap q)) =
            k.kept.messages q ∙ ap bare larger_here in
          record {
            receiving = record {
              finding = Finding-Keeps bytes d l id q larger s' k.kept larger-Finding;
              progress =
                  Progress-Added q larger s' larger-IsCounting
                    (ap (λ m. m.state) larger_here ∙ is_busy) k;
            };
            here =
                Held-bare index (grown index packet (s.heap q)) (s'.heap q) same
                  (grown-here (s.heap q));
            still = λ i held.
                Held-bare i (grown index packet (s.heap q)) (s'.heap q) same
                  (grown-Held (s.heap q) i held);
          }

    pub store_lem :
        (b : ℕ)
        → (s' : Receiver) × (store b q index packet s ≡ some s') × Stored bytes d l id q index s s'
    unfolding store set_packet release_packets
    store_lem b =
        let test : ltb index 1024 ≡ true = ground arith in
        elim (Option-cases ((s.heap q).packets index)) [
          | inl e ↦ (added b q packet larger, rw (test, e) refl, added-Stored e b)
          | inr (p, e) ↦ (
            release_packets 1 s,
            rw (test, e) refl,
            record {
              receiving =
                  Receiving-Quiet bytes d l id q s (release_packets 1 s) (release-Quiet s) r;
              here = (p, e);
              still = λ i held. held;
            },
          )
        ]
