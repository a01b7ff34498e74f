-- ===== src/Sender/Queue.antt =====
-- The invariant of the send queue: exactly the messages in progress are queued, each once, in the
-- order of their unsent bytes, with counts that fit their packets.
use homa.Base.{
  ℕ, zero, suc, ◌+◌, ◌-◌, ◌≤◌, ◌<◌, ◌≡◌, refl, sym, ap, ◌∙◌, inl, inr, Bool, true, false, ◌||◌,
  List, [], ◌∷◌, arith, ◌==◌, if◌then◌else◌, ==_iff, ==_refl, by_address, Bool-cases, All, IsSorted,
  IsSorted-congr,
}
use homa.Protocol.{data_header_size}
use homa.Intrusive.{remove, push_front, deprioritize}
use homa.Sender.{Status, is_in_progress, is_sent, DataPacket, Message, num_packets, Sender}
use homa.Intrusive.Members.{All_of_at, occurrences, occurrences-remove, occurrences-deprioritize}
use homa.Intrusive.Order.{remove-IsSorted, insert-IsSorted}
use homa.Sender.Messages.{compare_priority}

-- The data bytes of packets.
abbrev pub data_bytes : List DataPacket → ℕ
data_bytes [] = 0
data_bytes (k ∷ ks) = (k.length - data_header_size) + data_bytes ks

abbrev pub drop {ℓ} : {A : Type ℓ} → ℕ → List A → List A
drop zero xs = xs
drop (suc n) [] = []
drop (suc n) (x ∷ xs) = drop n xs

-- What is known of a queued message: at most the granted packets are sent, at most all packets are
-- granted, there are several, and the count of unsent bytes is that of the packets not yet sent.
pub record IsQueued (m : Message) : Type 0 where
  pub sent_le : m.info.packets_sent ≤ m.info.packets_granted
  pub granted_le : m.info.packets_granted ≤ num_packets m
  pub several : 1 < num_packets m
  pub unsent : m.info.unsent_bytes ≡ data_bytes (drop m.info.packets_sent m.packets)

abbrev pub unsent_key : (ℕ → Message) → ℕ → ℕ
unsent_key heap p = (heap p).info.unsent_bytes

-- Once if the message is in progress, and otherwise never.
abbrev pub times : Status → ℕ
times st = if is_in_progress st then 1 else 0

pub record IsQueue (heap : ℕ → Message) (queue : List ℕ) : Type 0 where
  pub members : (p : ℕ) → occurrences p queue ≡ times (heap p).state
  pub info : (p : ℕ) → is_in_progress (heap p).state ≡ true → IsQueued (heap p)
  pub sorted : IsSorted (unsent_key heap) queue

-- What `sendMessage` asserts of a message: its length is that of its data, and it has some.
pub record IsSized (m : Message) : Type 0 where
  pub total : m.message_length ≡ data_bytes m.packets
  pub some_packet : 0 < num_packets m

-- In progress or sent: the message may still have to be sent (again).
abbrev pub is_active : Status → Bool
is_active st = is_in_progress st || is_sent st

-- The invariant of the sender.
pub record IsHeap (heap : ℕ → Message) (queue : List ℕ) : Type 0 where
  pub ordered : IsQueue heap queue
  pub sized : (p : ℕ) → is_active (heap p).state ≡ true → IsSized (heap p)

abbrev pub IsValid : Sender → Type 0
IsValid s = IsHeap s.heap s.send_queue

-- The invariant for all messages but one, which is not queued.
pub record Others (p : ℕ) (heap : ℕ → Message) (queue : List ℕ) : Type 0 where
  pub absent : occurrences p queue ≡ 0
  pub members : (q : ℕ) → (q == p) ≡ false → occurrences q queue ≡ times (heap q).state
  pub info : (q : ℕ) → (q == p) ≡ false → is_in_progress (heap q).state ≡ true → IsQueued (heap q)
  pub sorted : IsSorted (unsent_key heap) queue
  pub sized : (q : ℕ) → (q == p) ≡ false → is_active (heap q).state ≡ true → IsSized (heap q)

module _ (heap : ℕ → Message) (p : ℕ) where
  pub Others-of_idle :
      (queue : List ℕ)
      → IsHeap heap queue
      → is_in_progress (heap p).state ≡ false
      → Others p heap queue
  Others-of_idle queue v e = record {
    absent = rw e at (v.ordered.members p);
    members = λ q _. v.ordered.members q;
    info = λ q _. v.ordered.info q;
    sorted = v.ordered.sorted;
    sized = λ q _. v.sized q;
  }

  pub Others-remove : (queue : List ℕ) → IsHeap heap queue → Others p heap (remove p queue)
  Others-remove queue v = record {
    absent = ground (arith, occurrences-remove p p queue, v.ordered.members p);
    members = λ q e. ground (arith, occurrences-remove q p queue, v.ordered.members q, ==_iff q p);
    info = λ q _. v.ordered.info q;
    sorted = remove-IsSorted (unsent_key heap) p queue v.ordered.sorted;
    sized = λ q _. v.sized q;
  }

  unsent_away :
      (f : Message → Message) (queue : List ℕ)
      → occurrences p queue ≡ 0
      → All
          (λ q. unsent_key heap q ≡ unsent_key (λ r. if r == p then f (heap r) else heap r) q)
          queue
  unsent_away f [] e = tt
  unsent_away f (q ∷ queue) e = elim (Bool-cases (q == p)) [
    | inl same ↦ absurd (ground arith)
    | inr other ↦ (rw (other, unsent_key) refl, unsent_away f queue (rw other at e))
  ]

  -- Nothing that happens to the message itself matters to the others.
  pub Others-modify :
      (f : Message → Message) (queue : List ℕ)
      → Others p heap queue
      → Others p (λ q. if q == p then f (heap q) else heap q) queue
  Others-modify f queue o = record {
    absent = o.absent;
    members = λ q e. rw e (o.members q e);
    info = λ q e. rw e (o.info q e);
    sorted = IsSorted-congr _ _ queue (unsent_away f queue o.absent) o.sorted;
    sized = λ q e. rw e (o.sized q e);
  }

  -- A message that is not in progress may stay out of the queue.
  pub IsQueue-of_idle :
      (queue : List ℕ)
      → Others p heap queue
      → is_in_progress (heap p).state ≡ false
      → IsQueue heap queue
  IsQueue-of_idle queue o e = record {
    members = λ q.
        by_address (λ r. occurrences r queue ≡ times (heap r).state) p q (rw (e, times) o.absent)
          (o.members q);
    info = λ q.
        by_address (λ r. is_in_progress (heap r).state ≡ true → IsQueued (heap r)) p q
          (λ busy. absurd (ground arith)) (o.info q);
    sorted = o.sorted;
  }

  -- A message in progress is put into its place.
  pub IsQueue-insert :
      (queue : List ℕ)
      → Others p heap queue
      → is_in_progress (heap p).state ≡ true
      → IsQueued (heap p)
      → IsQueue heap (deprioritize (compare_priority heap) p (push_front p queue))
  unfolding compare_priority
  IsQueue-insert queue o e k = record {
    members = λ q.
        by_address (λ r. occurrences r placed ≡ times (heap r).state) p q
          (rw (e, times) (ground (arith, occurrences-deprioritize c p p (p ∷ queue), o.absent)))
          (λ other.
            ground
              (arith, occurrences-deprioritize c q p (p ∷ queue), o.members q other, ==_iff q p));
    info = λ q.
        by_address (λ r. is_in_progress (heap r).state ≡ true → IsQueued (heap r)) p q (λ _. k)
          (o.info q);
    sorted = insert-IsSorted (unsent_key heap) p queue o.sorted;
  }
    where
      c : ℕ → ℕ → Bool
      c = compare_priority heap

      placed : List ℕ
      placed = deprioritize c p (p ∷ queue)

module _ (heap : ℕ → Message) (p : ℕ) (f : Message → Message) (queue : List ℕ)
    (o : Others p heap queue) where
  abbrev pub changed : ℕ → Message
  changed q = if q == p then f (heap q) else heap q

  changed_self : changed p ≡ f (heap p)
  changed_self = rw ==_refl

  changed-IsSized :
      (is_active (f (heap p)).state ≡ true → IsSized (f (heap p)))
      → (q : ℕ) → is_active (changed q).state ≡ true
      → IsSized (changed q)
  changed-IsSized k q =
      by_address (λ r. is_active (changed r).state ≡ true → IsSized (changed r)) p q
        (rw changed_self k) (λ e. rw e (o.sized q e))

  -- A message that is not queued changes and is not in progress afterwards.
  pub IsHeap-of_idle :
      is_in_progress (f (heap p)).state ≡ false
      → (is_active (f (heap p)).state ≡ true → IsSized (f (heap p)))
      → IsHeap changed queue
  IsHeap-of_idle e k = record {
    ordered = IsQueue-of_idle changed p queue (Others-modify heap p f queue o) (rw changed_self e);
    sized = changed-IsSized k;
  }

  -- A message that is not queued changes, is in progress afterwards and is put into the queue.
  pub IsHeap-of_busy :
      is_in_progress (f (heap p)).state ≡ true
      → IsQueued (f (heap p))
      → IsSized (f (heap p))
      → IsHeap changed (deprioritize (compare_priority changed) p (push_front p queue))
  IsHeap-of_busy e k z = record {
    ordered =
        IsQueue-insert changed p queue (Others-modify heap p f queue o) (rw changed_self e)
          (rw changed_self k);
    sized = changed-IsSized (λ _. z);
  }

module _ (heap : ℕ → Message) (p : ℕ) (f : Message → Message) (queue : List ℕ)
    (same_state : (f (heap p)).state ≡ (heap p).state)
    (same_unsent : (f (heap p)).info.unsent_bytes ≡ (heap p).info.unsent_bytes) where
  abbrev refitted : ℕ → Message
  refitted q = if q == p then f (heap q) else heap q

  refitted_self : refitted p ≡ f (heap p)
  refitted_self = rw ==_refl

  refitted_state : (q : ℕ) → (refitted q).state ≡ (heap q).state
  refitted_state q =
      by_address (λ r. (refitted r).state ≡ (heap r).state) p q (rw refitted_self same_state)
        (λ e. rw e)

  refitted_unsent : (q : ℕ) → unsent_key heap q ≡ unsent_key refitted q
  refitted_unsent q =
      by_address (λ r. unsent_key heap r ≡ unsent_key refitted r) p q
        (rw (refitted_self, unsent_key) (sym same_unsent)) (λ e. rw (e, unsent_key))

  -- A message changes, queued or not, but neither its state nor its unsent bytes.
  pub IsHeap-refit :
      IsHeap heap queue
      → (IsQueued (heap p) → IsQueued (f (heap p)))
      → (IsSized (heap p) → IsSized (f (heap p)))
      → IsHeap refitted queue
  IsHeap-refit v k z = record {
    ordered = record {
      members = λ q. v.ordered.members q ∙ ap times (sym (refitted_state q));
      info = λ q.
          by_address (λ r. is_in_progress (refitted r).state ≡ true → IsQueued (refitted r)) p q
            (rw refitted_self (λ e. k (v.ordered.info p (rw same_state at e))))
            (λ e. rw e (v.ordered.info q));
      sorted =
          IsSorted-congr _ _ queue (All_of_at _ queue λ q _. refitted_unsent q) v.ordered.sorted;
    };
    sized = λ q.
        by_address (λ r. is_active (refitted r).state ≡ true → IsSized (refitted r)) p q
          (rw refitted_self (λ e. z (v.sized p (rw same_state at e)))) (λ e. rw e (v.sized q));
  }
