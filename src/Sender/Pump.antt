-- ===== src/Sender/Pump.antt =====
-- What the inner loop of `trySend` does for one message.
use homa.Base.{
  ℕ, zero, suc, ◌+◌, ◌%◌, ◌^◌, ◌≤◌, ◌<◌, ◌≡◌, refl, ap, ◌∙◌, inl, inr, true, false, some, arith,
  ltb, ◌==◌, ==_refl, Bool-cases, Option-cases, length, get_elem?, All,
}
use homa.Sender.{is_in_progress, DataPacket, Sender, output}
use homa.Intrusive.{before}
use homa.Intrusive.Members.{occurrences, occurrences-prioritize}
use homa.Intrusive.Sums.{total-prioritize, total-update, length-prioritize, prioritize-before}
use homa.Sender.Transmit.{send_packet, send_packets, sendable, pending}
use homa.Sender.Queue.{times, IsValid}
use homa.Sender.Srpt.{send_packet-IsValid}

-- Every packet granted to the message at an address has been sent.
abbrev pub IsDone : Sender → ℕ → Type 0
IsDone s q = (s.heap q).info.packets_granted ≤ (s.heap q).info.packets_sent

-- What the inner loop does for one message. `P` is any property of the nodes before it.
pub record Pumped (P : ℕ → Type 0) (p : ℕ) (s s' : Sender) : Type 0 where
  pub valid : IsValid s'
  pub away : (q : ℕ) → (q == p) ≡ false → s'.heap q ≡ s.heap q
  pub busy : is_in_progress (s'.heap p).state ≡ is_in_progress (s.heap p).state
  pub members : (q : ℕ) → occurrences q s'.send_queue ≡ occurrences q s.send_queue
  pub size : length s'.send_queue ≡ length s.send_queue
  pub progress :
      pending s'.heap s'.send_queue + (s'.heap p).info.packets_sent
      ≡ pending s.heap s.send_queue + (s.heap p).info.packets_sent
  pub forward : (s.heap p).info.packets_sent ≤ (s'.heap p).info.packets_sent
  pub still :
      (s'.heap p).info.packets_sent ≡ (s.heap p).info.packets_sent → s'.send_queue ≡ s.send_queue
  pub visited : All P (before p s.send_queue) → All P (before p s'.send_queue)

module _ (P : ℕ → Type 0) (p : ℕ) where
  Pumped-refl : (s : Sender) → IsValid s → Pumped P p s s
  Pumped-refl s v = record {
    valid = v;
    away = λ q e. refl;
    busy = refl;
    members = λ q. refl;
    size = refl;
    progress = refl;
    forward = omega arith;
    still = λ e. refl;
    visited = λ a. a;
  }

  Pumped-trans : (s t u : Sender) → Pumped P p s t → Pumped P p t u → Pumped P p s u
  Pumped-trans s t u h k = record {
    valid = k.valid;
    away = λ q e. k.away q e ∙ h.away q e;
    busy = k.busy ∙ h.busy;
    members = λ q. k.members q ∙ h.members q;
    size = k.size ∙ h.size;
    progress = k.progress ∙ h.progress;
    forward = omega arith;
    still = λ e.
        k.still (omega (arith, h.forward, k.forward))
        ∙ h.still (omega (arith, h.forward, k.forward));
    visited = λ a. k.visited (h.visited a);
  }

  module _ (packet : DataPacket) (s : Sender) (v : IsValid s)
      (busy : is_in_progress (s.heap p).state ≡ true)
      (room : (s.heap p).info.packets_sent < (s.heap p).info.packets_granted)
      (here : get_elem? (s.heap p).packets (s.heap p).info.packets_sent ≡ some packet) where
    after_one : Sender
    after_one = send_packet p packet s

    one_more : (after_one.heap p).info.packets_sent ≡ (s.heap p).info.packets_sent + 1
    unfolding send_packet after_one output
    one_more = rw ==_refl

    same_granted : (after_one.heap p).info.packets_granted ≡ (s.heap p).info.packets_granted
    unfolding send_packet after_one output
    same_granted = rw ==_refl

    left : (n : ℕ) → suc n ≤ sendable (s.heap p) → n ≤ sendable ((send_packet p packet s).heap p)
    unfolding after_one
    left n h = omega (arith, one_more, same_granted)

    pending_reordered :
        pending after_one.heap after_one.send_queue ≡ pending after_one.heap s.send_queue
    unfolding send_packet after_one output
    pending_reordered = total-prioritize (λ q. sendable (after_one.heap q)) _ p s.send_queue

    away_one : (q : ℕ) → (q == p) ≡ false → after_one.heap q ≡ s.heap q
    unfolding send_packet after_one output
    away_one q e = rw e

    once : occurrences p s.send_queue ≡ 1
    once = rw (v.ordered.members p, times, busy)

    progress_one :
        pending after_one.heap after_one.send_queue + (after_one.heap p).info.packets_sent
        ≡ pending s.heap s.send_queue + (s.heap p).info.packets_sent
    progress_one = omega (
      arith,
      pending_reordered,
      total-update (λ q. sendable (s.heap q)) (λ q. sendable (after_one.heap q)) p
          (λ q e. ap sendable (away_one q e)) s.send_queue 1 once,
      same_granted,
      one_more,
    )

    send_packet-Pumped : Pumped P p s after_one
    unfolding send_packet after_one output
    send_packet-Pumped = record {
      valid = send_packet-IsValid p packet s v busy room here;
      away = λ q e. rw e;
      busy = rw ==_refl;
      members = λ q. occurrences-prioritize _ q p s.send_queue;
      size = length-prioritize _ p s.send_queue;
      progress = progress_one;
      forward = omega (arith, one_more);
      still = λ e. absurd (omega (arith, one_more));
      visited = prioritize-before P _ p s.send_queue;
    }

  -- The inner loop, over at most as many packets as were granted.
  pub send_packets-Pumped :
      (n queued : ℕ) (s : Sender)
      → IsValid s
      → is_in_progress (s.heap p).state ≡ true
      → n ≤ sendable (s.heap p)
      → Pumped P p s (send_packets n p queued s).1
  unfolding send_packets after_one
  send_packets-Pumped zero queued s v busy h = Pumped-refl s v
  send_packets-Pumped (suc n) queued s v busy h =
      elim (Option-cases (get_elem? (s.heap p).packets (s.heap p).info.packets_sent)) [
        | inl e ↦ rw e (Pumped-refl s v)
        | inr (packet, e) ↦
            let queued' = (queued + packet.length) % 2 ^ 32 in
            elim (Bool-cases (ltb s.config.driver_queued_byte_limit queued')) [
              | inl full ↦ rw (e, full) (Pumped-refl s v)
              | inr fits ↦
                  let room : (s.heap p).info.packets_sent < (s.heap p).info.packets_granted =
                    omega arith in
                  let one = send_packet-Pumped packet s v busy room e in
                  rw (e, fits)
                    (Pumped-trans s _ _ one (
                      send_packets-Pumped n queued' (send_packet p packet s) one.valid
                        (one.busy ∙ busy) (left packet s v busy room e n h)))
            ]
      ]
