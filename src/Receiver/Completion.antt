-- ===== src/Receiver/Completion.antt =====
-- src/Receiver.cc: how a message counts its packets, and when it is complete.
use homa.Base.{
  ℕ, zero, suc, ◌+◌, ◌≤◌, ◌<◌, ◌≡◌, refl, sym, ap, ◌∙◌, ◌⊎◌, inl, inr, true, false, Option, none,
  some, arith, ◌==◌, if◌then◌else◌, ==_iff, maybe, Bool-cases, Option-cases,
}
use homa.Intrusive.{contains}
use homa.Receiver.{in_progress, completed, DriverPacket, Message, Receiver}
use homa.Receiver.Keeping.{bare, Quiet, Added}

-- How many of the first packets are stored.
abbrev pub held_count : ℕ → (ℕ → Option DriverPacket) → ℕ
held_count zero packets = 0
held_count (suc n) packets = maybe 0 (λ _. 1) (packets n) + held_count n packets

held_count-le : (n : ℕ) (packets : ℕ → Option DriverPacket) → held_count n packets ≤ n
held_count-le zero packets = omega arith
held_count-le (suc n) packets = elim (Option-cases (packets n)) [
  | inl e ↦ rw e (omega (arith, held_count-le n packets))
  | inr (p, e) ↦ rw e (omega (arith, held_count-le n packets))
]

pub held_count-none : (n : ℕ) → held_count n (λ _. none) ≡ 0
held_count-none zero = refl
held_count-none (suc n) = omega (arith, held_count-none n)

-- All are stored, or one is missing.
pub held_count-all :
    (n : ℕ) (packets : ℕ → Option DriverPacket)
    → ((i : ℕ) → i < n → (p : DriverPacket) × (packets i ≡ some p))
    → held_count n packets ≡ n
held_count-all zero packets all = refl
held_count-all (suc n) packets all =
    let (p, e) = all n (omega arith) in
    rw e (omega (arith, held_count-all n packets (λ i lt. all i (omega arith))))

pub held_count-missing :
    (n i : ℕ) (packets : ℕ → Option DriverPacket)
    → i < n
    → packets i ≡ none
    → held_count n packets < n
held_count-missing zero i packets below missing = absurd (omega arith)
held_count-missing (suc n) i packets below missing = elim (Bool-cases (n == i)) [
  | inl e ↦
      let last : packets n ≡ none = ap packets ((==_iff n i).0 e) ∙ missing in
      rw last (omega (arith, held_count-le n packets))
  | inr e ↦
      let rest = held_count-missing n i packets (ground (arith, e)) missing in
      elim (Option-cases (packets n)) [
        | inl e' ↦ rw e' (omega (arith, rest))
        | inr (p, e') ↦ rw e' (omega (arith, rest))
      ]
]

held_count-congr :
    (n : ℕ) (packets packets' : ℕ → Option DriverPacket)
    → ((i : ℕ) → i < n → packets' i ≡ packets i)
    → held_count n packets' ≡ held_count n packets
held_count-congr zero packets packets' same = refl
held_count-congr (suc n) packets packets' same =
    rw (same n (omega arith), held_count-congr n packets packets' (λ i lt. same i (omega arith)))
      refl

-- Storing a packet that was missing counts one more.
pub held_count-stored :
    (n i : ℕ) (packet : DriverPacket) (packets : ℕ → Option DriverPacket)
    → i < n
    → packets i ≡ none
    → held_count n (λ j. if j == i then some packet else packets j) ≡ held_count n packets + 1
held_count-stored zero i packet packets below missing = absurd (omega arith)
held_count-stored (suc n) i packet packets below missing = elim (Bool-cases (n == i)) [
  | inl e ↦
      let last : packets n ≡ none = ap packets ((==_iff n i).0 e) ∙ missing in
      let same : held_count n (λ j. if j == i then some packet else packets j)
          ≡ held_count n packets =
        held_count-congr n packets (λ j. if j == i then some packet else packets j)
          (λ j lt. let away : (j == i) ≡ false = ground (arith, e) in rw away refl) in
      rw (e, last, same) (omega arith)
  | inr e ↦ rw (e, held_count-stored n i packet packets (ground (arith, e)) missing) (omega arith)
]

abbrev pub IsCounting : Message → Type 0
IsCounting m = m.num_packets ≡ held_count m.num_expected_packets m.packets

-- A message counts the packets that it holds. While one is missing it is in progress; else it is
-- complete, and waits to be received.
pub record Progress (q : ℕ) (s : Receiver) : Type 0 where
  pub counted :
      (s.heap q).num_packets ≡ held_count (s.heap q).num_expected_packets (s.heap q).packets
  pub phase :
      (((s.heap q).num_packets < (s.heap q).num_expected_packets)
        × ((s.heap q).state ≡ in_progress))
      ⊎ (((s.heap q).num_expected_packets ≤ (s.heap q).num_packets)
          × ((s.heap q).state ≡ completed)
          × (contains q s.received_messages ≡ true))

module _ (q : ℕ) (s s' : Receiver) where
  same_counted :
      bare (s'.heap q) ≡ bare (s.heap q)
      → (s.heap q).num_packets ≡ held_count (s.heap q).num_expected_packets (s.heap q).packets
      → (s'.heap q).num_packets ≡ held_count (s'.heap q).num_expected_packets (s'.heap q).packets
  same_counted e c =
      ap (λ m. m.num_packets) e ∙ c ∙ sym (ap (λ m. held_count m.num_expected_packets m.packets) e)

  pub Progress-Quiet : Quiet s s' → Progress q s → Progress q s'
  Progress-Quiet k r =
      let num : (s'.heap q).num_packets ≡ (s.heap q).num_packets =
        ap (λ m. m.num_packets) (k.messages q) in
      let all : (s'.heap q).num_expected_packets ≡ (s.heap q).num_expected_packets =
        ap (λ m. m.num_expected_packets) (k.messages q) in
      record {
        counted = same_counted (k.messages q) r.counted;
        phase = elim r.phase [
          | inl (less, busy) ↦ inl (omega (arith, num, all, less), k.states q ∙ busy)
          | inr (enough, done, waits) ↦ inr (
            omega (arith, num, all, enough),
            k.states q ∙ done,
            ap (contains q) k.received ∙ waits,
          )
        ];
      }

  -- After a packet was added to a message that was in progress.
  pub Progress-Added :
      (s.heap q).num_packets ≡ held_count (s.heap q).num_expected_packets (s.heap q).packets
      → (s.heap q).state ≡ in_progress
      → Added q s s'
      → Progress q s'
  Progress-Added c busy a =
      let num : (s'.heap q).num_packets ≡ (s.heap q).num_packets =
        ap (λ m. m.num_packets) (a.kept.messages q) in
      let all : (s'.heap q).num_expected_packets ≡ (s.heap q).num_expected_packets =
        ap (λ m. m.num_expected_packets) (a.kept.messages q) in
      record {
        counted = same_counted (a.kept.messages q) c;
        phase = elim a.phase [
          | inl (less, k) ↦ inl (omega (arith, num, all, less), k.states q ∙ busy)
          | inr (enough, done, waits) ↦ inr (omega (arith, num, all, enough), done, waits)
        ];
      }
