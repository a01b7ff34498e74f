-- ===== src/Receiver/Timeouts.antt =====
-- The check of message timeouts comes to an end.
use homa.Base.{
  ℕ, zero, suc, ◌<◌, ◌≡◌, refl, ap, ◌∙◌, inl, inr, true, false, some, List, arith, ==_refl,
  by_address, Bool-cases, Option-cases, length, IsSorted-congr,
}
use homa.Timeout.{Timeout, cancel_timeout, unlink, front, has_elapsed, any_elapsed}
use homa.Timeout.Due.{is_due, length-unlink-first}
use homa.Receiver.{
  dropped, is_in_progress, Receiver, modify, cancel_message_timeout, cancel_resend_timeout,
  release_packets,
}
use homa.Receiver.Messages.{destroy}
use homa.Receiver.Schedule.{unschedule}
use homa.Receiver.Handlers.{discard}
use homa.Receiver.Expiry.{expire_message, message_timeout_loop, check_message_timeouts}
use homa.Receiver.Order.{HasOrder, remaining, all_same, unschedule-HasOrder}

-- Both timeouts of a message are cancelled.
abbrev cancelled : ℕ → ℕ → Receiver → Receiver
cancelled b p s = cancel_resend_timeout b p (cancel_message_timeout b p s)

expire_message-HasOrder : (b p : ℕ) (s : Receiver) → HasOrder s → HasOrder (expire_message b p s)
unfolding HasOrder expire_message discard destroy release_packets cancel_message_timeout
    cancel_resend_timeout
expire_message-HasOrder b p s o = elim (Bool-cases (is_in_progress (s.heap p).state)) [
  | inl busy ↦ elim (Bool-cases (s.heap p).scheduled) [
    | inl on ↦ rw (busy, on) (unschedule-HasOrder p (cancelled b p s) o)
    | inr off ↦ rw (busy, off) o
  ]
  | inr idle ↦ rw idle (λ ip.
      IsSorted-congr _ _ (s.peer_table ip)
        (all_same (remaining s.heap) _
          (λ q.
            by_address
              (λ r.
                remaining (modify p (λ m. record m { state = dropped }) s).heap r
                ≡ remaining s.heap r)
              p q (rw (==_refl p, remaining) refl) (λ e. rw (e, remaining) refl))
          (s.peer_table ip))
        (o ip))
]

abbrev message_list : ℕ → Receiver → List Timeout
message_list b s = (s.buckets b).message_timeouts.list

unschedule-buckets : (p : ℕ) (s : Receiver) → (unschedule p s).buckets ≡ s.buckets
unfolding unschedule
unschedule-buckets p s = elim (Option-cases (s.heap p).info.peer) [
  | inl e ↦ rw e refl
  | inr (ip, e) ↦ rw e refl
]

cancelled-list :
    (b p : ℕ) (s : Receiver) → message_list b (cancelled b p s) ≡ unlink p (message_list b s)
unfolding cancel_message_timeout cancel_resend_timeout cancel_timeout
cancelled-list b p s = rw (==_refl b, message_list) refl

expire_message-list :
    (b p : ℕ) (s : Receiver) → message_list b (expire_message b p s) ≡ unlink p (message_list b s)
unfolding expire_message discard destroy release_packets cancel_message_timeout
    cancel_resend_timeout cancel_timeout
expire_message-list b p s = elim (Bool-cases (is_in_progress (s.heap p).state)) [
  | inl busy ↦ elim (Bool-cases (s.heap p).scheduled) [
    | inl on ↦
        rw (busy, on)
          (rw (==_refl b, message_list)
            (ap (λ k. (k b).message_timeouts.list) (unschedule-buckets p (cancelled b p s))
              ∙ cancelled-list b p s))
    | inr off ↦ rw (busy, off) (rw (==_refl b, message_list) refl)
  ]
  | inr idle ↦ rw idle (cancelled-list b p s)
]

expire_message-shorter :
    (b : ℕ) (s : Receiver) (t : Timeout)
    → front (s.buckets b).message_timeouts ≡ some t
    → suc (length (message_list b (expire_message b t.owner s))) ≡ length (message_list b s)
unfolding front
expire_message-shorter b s t e =
    rw (expire_message-list b t.owner s)
      (length-unlink-first (s.buckets b).message_timeouts.list t e)

-- With more rounds than timeouts the loop over expired messages comes to an end.
message_timeout_loop_lem :
    (fuel now b : ℕ) (s : Receiver)
    → HasOrder s
    → length (message_list b s) < fuel
    → (s' : Receiver) × (message_timeout_loop fuel now b s ≡ some s')
      × HasOrder s'
      × (is_due now (s'.buckets b).message_timeouts ≡ false)
unfolding message_timeout_loop
message_timeout_loop_lem zero now b s o h = absurd (omega arith)
message_timeout_loop_lem (suc fuel) now b s o h =
    elim (Option-cases (front (s.buckets b).message_timeouts)) [
      | inl e ↦ rw (e, message_timeout_loop) (s, refl, o, rw e)
      | inr (t, e) ↦ elim (Bool-cases (has_elapsed now t)) [
        | inl late ↦
            rw (e, message_timeout_loop)
              (rw late (
                message_timeout_loop_lem fuel now b (expire_message b t.owner s)
                  (expire_message-HasOrder b t.owner s o)
                  (omega (arith, expire_message-shorter b s t e))))
        | inr soon ↦ rw (e, message_timeout_loop) (rw soon (s, refl, o, rw (e, soon)))
      ]
    ]

-- The receiver's `checkMessageTimeouts` comes to an end, keeps every peer's messages in order, though
-- it takes messages out of the schedule, and leaves no due timeout in front if it saw one that had
-- elapsed.
pub check_message_timeouts-HasOrder :
    (now b : ℕ) (s : Receiver)
    → HasOrder s
    → (s' : Receiver) × (check_message_timeouts now b s ≡ some s')
      × HasOrder s'
      × (any_elapsed now (s.buckets b).message_timeouts ≡ true
          → is_due now (s'.buckets b).message_timeouts ≡ false)
unfolding check_message_timeouts
check_message_timeouts-HasOrder now b s o =
    elim (Bool-cases (any_elapsed now (s.buckets b).message_timeouts)) [
      | inl e ↦
          let (s', ran, valid, calm) =
            message_timeout_loop_lem (suc (length (s.buckets b).message_timeouts.list)) now b s o
              (omega arith) in
          rw e (s', ran, valid, λ _. calm)
      | inr e ↦ rw e (s, refl, o, λ absurdity. cc)
    ]
