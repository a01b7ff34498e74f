-- ===== src/Receiver/Resends.antt =====
-- The check of resend timeouts comes to an end: a message that is asked for goes to the end of the list.
use homa.Base.{
  ℕ, zero, suc, ◌+◌, ◌%◌, ◌≤◌, ◌<◌, ◌≡◌, refl, ap, ◌∙◌, inl, inr, true, false, Option, none, some,
  leb, ◌⊎◌, List, [], ◌∷◌, arith, ==_refl, Bool-cases, Option-cases, length,
}
use homa.Timeout.{Timeout, word, first, front, set_timeout, has_elapsed, any_elapsed}
use homa.Timeout.Due.{is_due, due_count, due_count-le, due_count-set}
use homa.Receiver.{Message, max_message_packets, Receiver, set_resend_timeout, output}
use homa.Receiver.Messages.{Range}
use homa.Receiver.Expiry.{
  grant_index_limit, missing_ranges, send_resends, expire_resend, resend_timeout_loop,
  check_resend_timeouts,
}
use homa.Receiver.Ranges.{missing_ranges_lem}

abbrev resend_list : ℕ → Receiver → List Timeout
resend_list b s = (s.buckets b).resend_timeouts.list

-- A timeout that is set at a later reading of the clock has not elapsed at the time `now`.
abbrev pub IsAhead : ℕ → ℕ → Receiver → Type 0
IsAhead now b s =
    (i : ℕ) → s.reads ≤ i → now < (s.config.rdtsc i + (s.buckets b).resend_timeouts.interval) % word

-- The message waits for more packets than a message can have.
abbrev pub Exceeds : ℕ → Receiver → Type 0
Exceeds p s =
    (limit : ℕ) × (grant_index_limit (s.heap p) ≡ some limit) × max_message_packets < limit

-- RESENDs change nothing but what is sent.
record SameButOutputs (s s' : Receiver) : Type 0 where
  heap : s'.heap ≡ s.heap
  buckets : s'.buckets ≡ s.buckets
  config : s'.config ≡ s.config
  reads : s'.reads ≡ s.reads

send_resends-same :
    (m : Message) (rs : List Range) (s : Receiver) → SameButOutputs s (send_resends m rs s)
unfolding send_resends output
send_resends-same m [] s = record { heap = refl; buckets = refl; config = refl; reads = refl }
send_resends-same m (r ∷ rs) s =
    let k = send_resends-same m rs (output _ _ s) in
    record { heap = k.heap; buckets = k.buckets; config = k.config; reads = k.reads }

-- One round of the loop sets the timeout of the message anew and sends RESENDs, or throws.
expire_resend_cases :
    (b p : ℕ) (s : Receiver)
    → ((s' : Receiver) × (expire_resend b p s ≡ some s')
        × SameButOutputs (set_resend_timeout b p s) s')
      ⊎ ((expire_resend b p s ≡ none) × Exceeds p s)
unfolding expire_resend
expire_resend_cases b p s = elim (Option-cases (grant_index_limit (s.heap p))) [
  | inl e ↦ inl (
      rw (e, expire_resend)
        (
          set_resend_timeout b p s,
          refl,
          record { heap = refl; buckets = refl; config = refl; reads = refl },
        ))
  | inr (limit, e) ↦ elim (Bool-cases (leb limit max_message_packets)) [
    | inl few ↦
        let (ranges, asked, _) = missing_ranges_lem (s.heap p) limit (ground arith) in
        inl (
          rw (e, expire_resend)
            (rw (asked, expire_resend)
              (_, refl, send_resends-same (s.heap p) ranges (set_resend_timeout b p s))))
    | inr many ↦
        let thrown : missing_ranges (s.heap p) limit ≡ none =
          unfold missing_ranges in rw many refl in
        inr (rw (e, expire_resend) (rw (thrown, expire_resend) refl), (limit, e, ground arith))
  ]
]

-- What one round does to the state, at the time `now`.
record Asked (now b : ℕ) (s s' : Receiver) : Type 0 where
  ahead : IsAhead now b s'
  same_heap : s'.heap ≡ s.heap
  fewer : suc (due_count now (resend_list b s')) ≡ due_count now (resend_list b s)

module _ (now b : ℕ) (s : Receiver) (t : Timeout) (ahead : IsAhead now b s)
    (e : front (s.buckets b).resend_timeouts ≡ some t) (late : has_elapsed now t ≡ true)
    (s' : Receiver) (k : SameButOutputs (set_resend_timeout b t.owner s) s') where
  same_heap : s'.heap ≡ s.heap
  unfolding set_resend_timeout
  same_heap = k.heap

  same_reads : s'.reads ≡ s.reads + 1
  unfolding set_resend_timeout
  same_reads = k.reads

  same_config : s'.config ≡ s.config
  unfolding set_resend_timeout
  same_config = k.config

  timeouts :
      (s'.buckets b).resend_timeouts
      ≡ set_timeout (s.config.rdtsc s.reads) t.owner (s.buckets b).resend_timeouts
  unfolding set_resend_timeout
  timeouts = ap (λ k. (k b).resend_timeouts) k.buckets ∙ rw (==_refl b) refl

  interval : (s'.buckets b).resend_timeouts.interval ≡ (s.buckets b).resend_timeouts.interval
  unfolding set_timeout
  interval = ap (λ m. m.interval) timeouts

  head_is : first (resend_list b s) ≡ some t
  unfolding front
  head_is = e

  round-Asked : Asked now b s s'
  round-Asked = record {
    ahead = λ i le. rw (same_config, interval) (ahead i (omega (arith, same_reads, le)));
    same_heap = same_heap;
    fewer =
        ap (λ m. suc (due_count now m.list)) timeouts
        ∙ due_count-set now (s.config.rdtsc s.reads) (s.buckets b).resend_timeouts t head_is late
            (ahead s.reads (omega arith));
  }

-- What the loop comes to from a state: it returns, with no message changed and no due timeout in front, or
-- throws, at a message that waits for too many packets.
abbrev Ended : ℕ → ℕ → Receiver → Option Receiver → Type 0
Ended now b s r =
    ((s' : Receiver) × (r ≡ some s')
      × (s'.heap ≡ s.heap)
      × (is_due now (s'.buckets b).resend_timeouts ≡ false))
    ⊎ ((r ≡ none) × (p : ℕ) × Exceeds p s)

Ended-heap :
    (now b : ℕ) (s s₁ : Receiver) (r : Option Receiver)
    → s₁.heap ≡ s.heap
    → Ended now b s₁ r
    → Ended now b s r
Ended-heap now b s s₁ r same (inl (s', ran, heap, calm)) = inl (s', ran, heap ∙ same, calm)
Ended-heap now b s s₁ r same (inr (ran, p, (limit, e, many))) =
    inr (ran, p, (limit, rw same at e, many))

resend_timeout_loop_lem :
    (fuel now b : ℕ) (s : Receiver)
    → IsAhead now b s
    → due_count now (resend_list b s) < fuel
    → Ended now b s (resend_timeout_loop fuel now b s)
unfolding resend_timeout_loop
resend_timeout_loop_lem zero now b s a h = absurd (omega arith)
resend_timeout_loop_lem (suc fuel) now b s a h =
    elim (Option-cases (front (s.buckets b).resend_timeouts)) [
      | inl e ↦ rw (e, resend_timeout_loop) (inl (s, refl, refl, rw e refl))
      | inr (t, e) ↦ elim (Bool-cases (has_elapsed now t)) [
        | inl late ↦ elim (expire_resend_cases b t.owner s) [
          | inl (s₁, ran, same) ↦
              let k = round-Asked now b s t a e late s₁ same in
              rw (e, resend_timeout_loop)
                (rw late (
                  rw (ran, resend_timeout_loop)
                    (Ended-heap now b s s₁ _ k.same_heap
                      (resend_timeout_loop_lem fuel now b s₁ k.ahead (omega (arith, k.fewer))))))
          | inr (thrown, many) ↦
              rw (e, resend_timeout_loop)
                (rw late (rw (thrown, resend_timeout_loop) (inr (refl, t.owner, many))))
        ]
        | inr soon ↦ rw (e, resend_timeout_loop) (rw soon (inl (s, refl, refl, rw (e, soon))))
      ]
    ]

-- The receiver's `checkResendTimeouts` comes to an end, if a timeout that is set at a reading of the clock
-- after the check begins lies ahead of the time of the check: it returns, with no message changed, and
-- with no due timeout in front if it saw one that had elapsed; or it throws, and then some message
-- waits for more packets than a message can have.
pub check_resend_timeouts_lem :
    (now b : ℕ) (s : Receiver)
    → IsAhead now b s
    → ((s' : Receiver) × (check_resend_timeouts now b s ≡ some s')
        × (s'.heap ≡ s.heap)
        × (any_elapsed now (s.buckets b).resend_timeouts ≡ true
            → is_due now (s'.buckets b).resend_timeouts ≡ false))
      ⊎ ((check_resend_timeouts now b s ≡ none) × (p : ℕ) × Exceeds p s)
unfolding check_resend_timeouts
check_resend_timeouts_lem now b s a =
    elim (Bool-cases (any_elapsed now (s.buckets b).resend_timeouts)) [
      | inl e ↦
          elim (resend_timeout_loop_lem (suc (length (resend_list b s))) now b s a
            (omega (arith, due_count-le now (resend_list b s)))) [
              | inl (s', ran, heap, calm) ↦ rw e (inl (s', ran, heap, λ _. calm))
              | inr thrown ↦ rw e (inr thrown)
            ]
      | inr e ↦ rw e (inl (s, refl, refl, λ absurdity. cc))
    ]
