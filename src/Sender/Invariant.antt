-- ===== src/Sender/Invariant.antt =====
-- The handlers and the calls of the application keep the invariant of the sender.
use homa.Base.{
  ℕ, zero, suc, ◌+◌, ◌≤◌, ◌≡◌, refl, inl, inr, false, ◌||◌, arith, ltb, leb, Bool-cases,
}
use homa.Protocol.{GrantHeader, ResendHeader}
use homa.Intrusive.{remove}
use homa.Sender.{
  Status, completed, failed, is_in_progress, is_sent, num_packets, data_output, Sender, set_state,
  set_timeouts, cancel_timeouts, output, dequeue,
}
use homa.Sender.Handlers.{done, grant, resend_range, answer_resend, resend, granted, error}
use homa.Sender.Queue.{
  is_active, IsValid, Others-of_idle, Others-remove, IsHeap-of_idle, IsHeap-refit,
}

-- A message that is not in progress ends in a state that asks for no more sending.
pub set_state-IsValid :
    (st : Status) (p : ℕ) (s : Sender)
    → IsValid s
    → is_in_progress (s.heap p).state ≡ false
    → is_active st ≡ false
    → IsValid (set_state st p s)
unfolding set_state
set_state-IsValid st p s v idle e =
    IsHeap-of_idle s.heap p (λ m. record m { state = st }) s.send_queue
      (Others-of_idle s.heap p _ v idle) (ground arith) (λ a. ground arith)

-- So does a message that leaves the queue.
pub dequeue-set_state-IsValid :
    (st : Status) (p : ℕ) (s : Sender)
    → IsValid s
    → is_active st ≡ false
    → IsValid (set_state st p (dequeue p s))
unfolding set_state dequeue
dequeue-set_state-IsValid st p s v e =
    IsHeap-of_idle s.heap p (λ m. record m { state = st }) (remove p s.send_queue)
      (Others-remove s.heap p _ v) (ground arith) (λ a. ground arith)

-- `cancel_timeouts` and `set_timeouts` touch neither heap nor queue.
cancel_timeouts-IsValid : (b p : ℕ) (s : Sender) → IsValid s → IsValid (cancel_timeouts b p s)
unfolding cancel_timeouts
cancel_timeouts-IsValid b p s v = v

pub done-IsValid : (b p : ℕ) (s : Sender) → IsValid s → IsValid (done b p s)
unfolding done cancel_timeouts
done-IsValid b p s v = elim (Bool-cases (is_sent (s.heap p).state)) [
  | inl e ↦ rw e (set_state-IsValid completed p (cancel_timeouts b p s) v (ground arith) refl)
  | inr e ↦ rw e v
]

pub error-IsValid : (b p : ℕ) (s : Sender) → IsValid s → IsValid (error b p s)
unfolding error cancel_timeouts
error-IsValid b p s v = elim (Bool-cases (is_sent (s.heap p).state)) [
  | inl e ↦ rw e (set_state-IsValid failed p (cancel_timeouts b p s) v (ground arith) refl)
  | inr e ↦ rw e v
]

-- More packets are granted to a message, at most all.
grant-IsValid :
    (p limit priority : ℕ) (s : Sender)
    → IsValid s
    → limit ≤ num_packets (s.heap p)
    → IsValid (grant p limit priority s)
unfolding grant
grant-IsValid p limit priority s v h =
    elim (Bool-cases (ltb (s.heap p).info.packets_granted limit)) [
      | inl e ↦ rw e (
          IsHeap-refit s.heap p
            (λ m. record m {
              info = record (m.info) { packets_granted = limit; priority = priority };
            })
            s.send_queue refl refl v
            (λ k. record {
              sent_le = ground (arith, k.sent_le);
              granted_le = h;
              several = k.several;
              unsent = k.unsent;
            })
            (λ z. record { total = z.total; some_packet = z.some_packet }))
      | inr e ↦ rw e v
    ]

resend_range-IsValid :
    (p ip priority i n : ℕ) (s : Sender) → IsValid s → IsValid (resend_range p ip priority i n s)
unfolding resend_range output
resend_range-IsValid p ip priority i zero s v = v
resend_range-IsValid p ip priority i (suc n) s v =
    resend_range-IsValid p ip priority (i + 1) n (output (data_output p i ip priority) s) v

answer_resend-IsValid :
    (p index resend_end : ℕ) (s : Sender) → IsValid s → IsValid (answer_resend p index resend_end s)
unfolding answer_resend output
answer_resend-IsValid p index resend_end s v =
    elim (Bool-cases (leb (s.heap p).info.packets_sent index)) [
      | inl e ↦ rw e v
      | inr e ↦ rw e (resend_range-IsValid p _ _ index _ s v)
    ]

pub resend-IsValid :
    (b p : ℕ) (h : ResendHeader) (s : Sender) → IsValid s → IsValid (resend b p h s)
unfolding resend set_timeouts
resend-IsValid b p h s v = elim (Bool-cases (ltb (num_packets (s.heap p)) 2)) [
  | inl e ↦ rw e v
  | inr e ↦
      elim (Bool-cases
        (leb (num_packets (s.heap p)) h.index || ltb (num_packets (s.heap p)) (h.index + h.num))) [
          | inl out ↦ rw (e, out) v
          | inr within ↦
              rw (e, within)
                (answer_resend-IsValid p h.index (h.index + h.num) _ (
                  grant-IsValid p (h.index + h.num) h.priority (set_timeouts b p s) v
                    (ground arith)))
        ]
]

pub granted-IsValid :
    (b p : ℕ) (h : GrantHeader) (s : Sender) → IsValid s → IsValid (granted b p h s)
unfolding granted set_timeouts
granted-IsValid b p h s v = elim (Bool-cases (is_in_progress (s.heap p).state)) [
  | inl e ↦ rw e (grant-IsValid p _ h.priority (set_timeouts b p s) v (omega arith))
  | inr e ↦ rw e v
]
