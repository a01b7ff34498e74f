-- ===== src/Sender/Timeouts.antt =====
-- The loops over expired timeouts come to an end, keep the invariant and leave no due timeout in front.
use homa.Base.{
  ℕ, zero, suc, ◌<◌, ◌≡◌, refl, ap, inl, inr, true, false, some, List, arith, ==_refl, Bool-cases,
  Option-cases, length,
}
use homa.Timeout.{Timeout, cancel_timeout, any_elapsed, has_elapsed}
use homa.Sender.{
  failed, is_in_progress, is_completed, MessageBucket, Sender, modify_bucket, set_state,
  cancel_timeouts, dequeue,
}
use homa.Timeout.{unlink, front}
use homa.Timeout.Due.{is_due, length-unlink-first}
use homa.Sender.Expiry.{expire_message, message_timeout_loop, check_message_timeouts}
use homa.Sender.Queue.{IsValid}
use homa.Sender.Invariant.{set_state-IsValid, dequeue-set_state-IsValid}

pub expire_message-IsValid : (b p : ℕ) (s : Sender) → IsValid s → IsValid (expire_message b p s)
unfolding expire_message cancel_timeouts dequeue set_state
expire_message-IsValid b p s v = elim (Bool-cases (is_completed (s.heap p).state)) [
  | inl e ↦ rw e v
  | inr e ↦ elim (Bool-cases (is_in_progress (s.heap p).state)) [
    | inl busy ↦ rw (e, busy) (dequeue-set_state-IsValid failed p s v refl)
    | inr idle ↦ rw (e, idle) (set_state-IsValid failed p s v idle refl)
  ]
]

pub modify_bucket_self :
    (b : ℕ) (f : MessageBucket → MessageBucket) (s : Sender)
    → (modify_bucket b f s).buckets b ≡ f (s.buckets b)
modify_bucket_self b f s = rw ==_refl

message_list : ℕ → Sender → List Timeout
message_list b s = (s.buckets b).message_timeouts.list

expire_message-list :
    (b p : ℕ) (s : Sender) → message_list b (expire_message b p s) ≡ unlink p (message_list b s)
unfolding message_list expire_message cancel_timeouts cancel_timeout dequeue set_state
expire_message-list b p s = elim (Bool-cases (is_completed (s.heap p).state)) [
  | inl e ↦ rw e (at_bucket s)
  | inr e ↦ elim (Bool-cases (is_in_progress (s.heap p).state)) [
    | inl busy ↦ rw (e, busy) (at_bucket (set_state failed p (dequeue p s)))
    | inr idle ↦ rw (e, idle) (at_bucket (set_state failed p s))
  ]
]
  where
    cancelled : MessageBucket → MessageBucket
    cancelled k = record k {
      message_timeouts = cancel_timeout p k.message_timeouts;
      ping_timeouts = cancel_timeout p k.ping_timeouts;
    }

    at_bucket :
        (s : Sender) → message_list b (modify_bucket b cancelled s) ≡ unlink p (message_list b s)
    at_bucket s = ap (λ k. k.message_timeouts.list) (modify_bucket_self b cancelled s)

expire_message-shorter :
    (b : ℕ) (s : Sender) (t : Timeout)
    → front (s.buckets b).message_timeouts ≡ some t
    → suc (length (message_list b (expire_message b t.owner s))) ≡ length (message_list b s)
unfolding front
expire_message-shorter b s t e =
    rw (expire_message-list b t.owner s)
      (unfold message_list in length-unlink-first (s.buckets b).message_timeouts.list t e)

-- With more rounds than timeouts the loop over expired messages comes to an end.
message_timeout_loop_lem :
    (fuel now b : ℕ) (s : Sender)
    → IsValid s
    → length (message_list b s) < fuel
    → (s' : Sender) × (message_timeout_loop fuel now b s ≡ some s')
      × IsValid s'
      × (is_due now (s'.buckets b).message_timeouts ≡ false)
unfolding message_timeout_loop
message_timeout_loop_lem zero now b s v h = absurd (omega arith)
message_timeout_loop_lem (suc fuel) now b s v h =
    elim (Option-cases (front (s.buckets b).message_timeouts)) [
      | inl e ↦ rw (e, message_timeout_loop) (s, refl, v, rw e)
      | inr (t, e) ↦ elim (Bool-cases (has_elapsed now t)) [
        | inl late ↦
            rw (e, message_timeout_loop)
              (rw late (
                message_timeout_loop_lem fuel now b (expire_message b t.owner s)
                  (expire_message-IsValid b t.owner s v)
                  (omega (arith, expire_message-shorter b s t e))))
        | inr soon ↦ rw (e, message_timeout_loop) (rw soon (s, refl, v, rw (e, soon)))
      ]
    ]

-- `checkMessageTimeouts` comes to an end, keeps the invariant of the send queue, though it takes
-- messages out of it, and leaves no due timeout in front if it saw one that had elapsed.
pub check_message_timeouts_lem :
    (now b : ℕ) (s : Sender)
    → IsValid s
    → (s' : Sender) × (check_message_timeouts now b s ≡ some s')
      × IsValid s'
      × (any_elapsed now (s.buckets b).message_timeouts ≡ true
          → is_due now (s'.buckets b).message_timeouts ≡ false)
unfolding check_message_timeouts message_list
check_message_timeouts_lem now b s v =
    elim (Bool-cases (any_elapsed now (s.buckets b).message_timeouts)) [
      | inl e ↦
          let (s', ran, valid, calm) =
            message_timeout_loop_lem (suc (length (s.buckets b).message_timeouts.list)) now b s v
              (omega arith) in
          rw e (s', ran, valid, λ _. calm)
      | inr e ↦ rw e (s, refl, v, λ absurdity. cc)
    ]
