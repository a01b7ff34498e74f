-- ===== src/Sender/Pings.antt =====
-- The loop over ping timeouts: a message that is pinged goes to the end of the list.
use homa.Base.{
  ℕ, zero, suc, ◌+◌, ◌%◌, ◌≤◌, ◌<◌, ◌≡◌, refl, ap, ◌∙◌, inl, inr, true, false, ◌&&◌, ◌||◌, some,
  List, arith, ltb, Bool-cases, Option-cases, length,
}
use homa.Timeout.{Timeout, TimeoutManager, set_timeout, cancel_timeout, any_elapsed, has_elapsed}
use homa.Sender.{
  is_in_progress, is_sent, is_completed, is_failed, MessageBucket, Output, Sender, modify_bucket,
  cancel_timeouts, output,
}
use homa.Timeout.{word, unlink, first, front}
use homa.Sender.Expiry.{
  set_ping_timeout, cancel_ping_timeout, expire_ping, ping_timeout_loop, check_ping_timeouts,
}
use homa.Sender.Queue.{IsValid}
use homa.Timeout.Due.{is_due, due_count, due_count-le, due_count-unlink, due_count-set}
use homa.Sender.Timeouts.{modify_bucket_self}

-- The four ways in which a due ping timeout is handled.
pub expire_ping_cases :
    (P : Sender → Type 0) (b p : ℕ) (s : Sender)
    → P (cancel_ping_timeout b p s)
    → P (cancel_timeouts b p s)
    → P (set_ping_timeout b p s)
    → ((o : Output) → P (output o (set_ping_timeout b p s)))
    → P (expire_ping b p s)
unfolding expire_ping
expire_ping_cases P b p s done quiet busy ping =
    elim (Bool-cases (is_completed (s.heap p).state || is_failed (s.heap p).state)) [
      | inl e ↦ rw e done
      | inr e ↦ elim (Bool-cases ((s.heap p).options.no_keep_alive && is_sent (s.heap p).state)) [
        | inl f ↦ rw (e, f) quiet
        | inr f ↦
            elim (Bool-cases (
              is_in_progress (s.heap p).state
              && ltb (s.heap p).info.packets_sent (s.heap p).info.packets_granted)) [
                | inl g ↦ rw (e, f, g) busy
                | inr g ↦ rw (e, f, g) (ping _)
              ]
      ]
    ]

abbrev ping_list : ℕ → Sender → List Timeout
ping_list b s = (s.buckets b).ping_timeouts.list

abbrev ping_interval : ℕ → Sender → ℕ
ping_interval b s = (s.buckets b).ping_timeouts.interval

-- A timeout that is set at a later reading of the clock has not elapsed at the time `now`.
abbrev pub IsAhead : ℕ → ℕ → Sender → Type 0
IsAhead now b s =
    (i : ℕ) → s.reads ≤ i → now < (s.config.rdtsc i + (s.buckets b).ping_timeouts.interval) % word

-- One round of the loop at the time `now`.
record Pinged (now b : ℕ) (s s' : Sender) : Type 0 where
  valid : IsValid s → IsValid s'
  ahead : IsAhead now b s → IsAhead now b s'
  fewer : suc (due_count now (ping_list b s')) ≡ due_count now (ping_list b s)

module _ (now b : ℕ) (s : Sender) (t : Timeout) (ahead : IsAhead now b s)
    (front_is : front (s.buckets b).ping_timeouts ≡ some t) (late : has_elapsed now t ≡ true) where
  head_is : first (ping_list b s) ≡ some t
  unfolding front
  head_is = front_is

  -- The ping timeouts of the bucket lose the first one.
  module _ (f : MessageBucket → MessageBucket)
      (lost : (f (s.buckets b)).ping_timeouts
        ≡ cancel_timeout t.owner (s.buckets b).ping_timeouts) where
    left : TimeoutManager
    left = ((modify_bucket b f s).buckets b).ping_timeouts

    left_is : left ≡ cancel_timeout t.owner (s.buckets b).ping_timeouts
    unfolding left
    left_is = ap (λ k. k.ping_timeouts) (modify_bucket_self b f s) ∙ lost

    left-interval : left.interval ≡ ping_interval b s
    unfolding cancel_timeout
    left-interval = ap (λ m. m.interval) left_is

    left-list : left.list ≡ unlink t.owner (ping_list b s)
    unfolding cancel_timeout
    left-list = ap (λ m. m.list) left_is

    cancel-Pinged : Pinged now b s (modify_bucket b f s)
    unfolding left
    cancel-Pinged = record {
      valid = λ v. v;
      ahead = λ h i le. rw left-interval (h i le);
      fewer = rw left-list (due_count-unlink now (ping_list b s) t head_is late);
    }

  set_bucket : (set_ping_timeout b t.owner s).buckets b ≡ record (s.buckets b) {
    ping_timeouts = set_timeout (s.config.rdtsc s.reads) t.owner (s.buckets b).ping_timeouts;
  }
  unfolding set_ping_timeout
  set_bucket =
      modify_bucket_self b
        (λ k. record k {
          ping_timeouts = set_timeout (s.config.rdtsc s.reads) t.owner k.ping_timeouts;
        })
        s

  set-interval : ping_interval b (set_ping_timeout b t.owner s) ≡ ping_interval b s
  unfolding set_timeout
  set-interval = ap (λ k. k.ping_timeouts.interval) set_bucket

  set-list :
      ping_list b (set_ping_timeout b t.owner s)
      ≡ (set_timeout (s.config.rdtsc s.reads) t.owner (s.buckets b).ping_timeouts).list
  set-list = ap (λ k. k.ping_timeouts.list) set_bucket

  set-Pinged : Pinged now b s (set_ping_timeout b t.owner s)
  set-Pinged = record {
    valid = λ v. unfold set_ping_timeout in v;
    ahead = λ h i le.
        rw set-interval (unfold set_ping_timeout in h i (unfold set_ping_timeout in omega arith));
    fewer = rw set-list (
        due_count-set now (s.config.rdtsc s.reads) (s.buckets b).ping_timeouts t head_is late
          (ahead s.reads (omega arith)));
  }

  output-Pinged : (o : Output) → Pinged now b s (output o (set_ping_timeout b t.owner s))
  unfolding output
  output-Pinged o = record {
    valid = set-Pinged.valid;
    ahead = set-Pinged.ahead;
    fewer = set-Pinged.fewer;
  }

  expire_ping-Pinged : Pinged now b s (expire_ping b t.owner s)
  unfolding cancel_ping_timeout cancel_timeouts
  expire_ping-Pinged =
      expire_ping_cases (Pinged now b s) b t.owner s
        (cancel-Pinged (λ k. record k { ping_timeouts = cancel_timeout t.owner k.ping_timeouts })
          refl)
        (cancel-Pinged
          (λ k. record k {
            message_timeouts = cancel_timeout t.owner k.message_timeouts;
            ping_timeouts = cancel_timeout t.owner k.ping_timeouts;
          })
          refl)
        set-Pinged output-Pinged

ping_timeout_loop_lem :
    (fuel now b : ℕ) (s : Sender)
    → IsValid s
    → IsAhead now b s
    → due_count now (ping_list b s) < fuel
    → (s' : Sender) × (ping_timeout_loop fuel now b s ≡ some s')
      × IsValid s'
      × (is_due now (s'.buckets b).ping_timeouts ≡ false)
unfolding ping_timeout_loop
ping_timeout_loop_lem zero now b s v a h = absurd (omega arith)
ping_timeout_loop_lem (suc fuel) now b s v a h =
    elim (Option-cases (front (s.buckets b).ping_timeouts)) [
      | inl e ↦ rw (e, ping_timeout_loop) (s, refl, v, rw e)
      | inr (t, e) ↦ elim (Bool-cases (has_elapsed now t)) [
        | inl late ↦
            let k = expire_ping-Pinged now b s t a e late in
            rw (e, ping_timeout_loop)
              (rw late (
                ping_timeout_loop_lem fuel now b (expire_ping b t.owner s) (k.valid v) (k.ahead a)
                  (omega (arith, k.fewer))))
        | inr soon ↦ rw (e, ping_timeout_loop) (rw soon (s, refl, v, rw (e, soon)))
      ]
    ]

-- `checkPingTimeouts` comes to an end if a timeout that is set at a reading of the clock after the
-- check begins lies ahead of the time of the check. It keeps the invariant of the send queue and leaves no due timeout in
-- front if it saw one that had elapsed.
pub check_ping_timeouts_lem :
    (now b : ℕ) (s : Sender)
    → IsValid s
    → IsAhead now b s
    → (s' : Sender) × (check_ping_timeouts now b s ≡ some s')
      × IsValid s'
      × (any_elapsed now (s.buckets b).ping_timeouts ≡ true
          → is_due now (s'.buckets b).ping_timeouts ≡ false)
unfolding check_ping_timeouts
check_ping_timeouts_lem now b s v a =
    elim (Bool-cases (any_elapsed now (s.buckets b).ping_timeouts)) [
      | inl e ↦
          let (s', ran, valid, calm) =
            ping_timeout_loop_lem (suc (length (ping_list b s))) now b s v a
              (omega (arith, due_count-le now (ping_list b s))) in
          rw e (s', ran, valid, λ _. calm)
      | inr e ↦ rw e (s, refl, v, λ absurdity. cc)
    ]
