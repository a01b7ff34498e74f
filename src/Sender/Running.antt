-- ===== src/Sender/Running.antt =====
-- src/Sender.cc: the steps of `trySend`, each of which passes or finishes a message of the send queue.
use homa.Base.{
  ℕ, suc, ◌+◌, ◌*◌, ◌≤◌, ◌<◌, ◌≡◌, refl, ◌∙◌, inl, inr, true, false, Option, none, some, List,
  arith, ==_refl, by_address, Option-cases, length, All, All-map,
}
use homa.Intrusive.{remove, contains}
use homa.Sender.{sent, is_in_progress, Sender, set_state, dequeue}
use native.Mathlib.Decide.{dec_lt}
use homa.Intrusive.{before, contains, after}
use homa.Intrusive.Members.{occurrences, contains_iff}
use homa.Intrusive.Sums.{
  total-remove, total-congr, length-remove, length-after, length-after-next, next-occurs,
  next-occurs-remove, next-before, next-before-remove, end-before, end-before-remove, before-map,
}
use homa.Sender.Transmit.{next_node, send_packets, finish, sendable, pending}
use homa.Sender.Queue.{IsValid, Others-remove, IsHeap-of_idle}
use homa.Sender.Pump.{IsDone, Pumped, send_packets-Pumped}

-- Where the iterator stands in the queue.
abbrev Points : Option ℕ → Sender → Type 0
Points none s = Unit
Points (some p) s = is_in_progress (s.heap p).state ≡ true

-- The nodes that the outer loop has passed.
abbrev passed : Option ℕ → Sender → List ℕ
passed none s = s.send_queue
passed (some p) s = before p s.send_queue

-- The nodes that are left, the one under the iterator included.
abbrev pub left_over : Option ℕ → Sender → ℕ
left_over none s = 0
left_over (some p) s = suc (length (after p s.send_queue))

-- What bounds the rounds of the outer loop in a queue of at most `size` messages.
abbrev pub measure : ℕ → Option ℕ → Sender → ℕ
measure size it s =
    (pending s.heap s.send_queue + length s.send_queue) * (size + 1) + left_over it s

-- What `trySend` leaves: the invariant, and unless `sendReady` is set again, no message in the queue
-- with a packet that is granted and not sent.
pub record Sent (s : Sender) : Type 0 where
  pub valid : IsValid s
  pub done : s.send_ready ≡ false → All (IsDone s) s.send_queue

pub record Running (size : ℕ) (it : Option ℕ) (s : Sender) : Type 0 where
  pub valid : IsValid s
  pub points : Points it s
  pub visited : All (IsDone s) (passed it s)
  pub fits : length s.send_queue ≤ size

-- What is queued is in progress, and queued once.
pub queued_once :
    (m : ℕ) (s : Sender)
    → IsValid s
    → 0 < occurrences m s.send_queue
    → (is_in_progress (s.heap m).state ≡ true) × (occurrences m s.send_queue ≡ 1)
queued_once m s v h = ground (arith, v.ordered.members m)

mul_step : (a b k : ℕ) → a < b → a * k + k ≤ b * k
mul_step a b k h = grind arith

pub linked_at :
    (p : ℕ) (s : Sender)
    → IsValid s
    → is_in_progress (s.heap p).state ≡ true
    → contains p s.send_queue ≡ true
linked_at p s v busy = (contains_iff p s.send_queue).1 (ground (arith, v.ordered.members p))

-- The inner loop leaves the outer one where it was, and nearer to its end if it has sent anything.
pub pump-Running :
    (size p queued : ℕ) (s : Sender)
    → Running size (some p) s
    → let s' = (send_packets (sendable (s.heap p)) p queued s).1 in
      Running size (some p) s' × (measure size (some p) s' ≤ measure size (some p) s)
pump-Running size p queued s r = (
  record {
    valid = k.valid;
    points = busy;
    visited =
        before-map (IsDone s) (IsDone s') p (λ q e d. rw (k.away q e) d) s'.send_queue
          (k.visited r.visited);
    fits = omega (arith, k.size, r.fits);
  },
  elim (dec_lt (s.heap p).info.packets_sent (s'.heap p).info.packets_sent) [
    | yes more ↦ omega (
      arith,
      k.size,
      r.fits,
      length-after p s'.send_queue (linked_at p s' k.valid busy),
      mul_step (pending s'.heap s'.send_queue + length s'.send_queue)
          (pending s.heap s.send_queue + length s.send_queue) (size + 1)
          (omega (arith, k.progress, k.size, more)),
    )
    | no same ↦
        let e : (s'.heap p).info.packets_sent ≡ (s.heap p).info.packets_sent =
          omega (arith, k.forward) in
        let q : pending s'.heap s'.send_queue ≡ pending s.heap s.send_queue =
          omega (arith, k.progress) in
        rw (q, k.still e) (omega arith)
  ],
)
  where
    s' : Sender
    s' = (send_packets (sendable (s.heap p)) p queued s).1

    k : Pumped (IsDone s) p s s'
    k =
        send_packets-Pumped (IsDone s) p (sendable (s.heap p)) queued s r.valid r.points
          (omega arith)

    busy : is_in_progress (s'.heap p).state ≡ true
    busy = k.busy ∙ r.points

-- One step of the iterator past a message whose granted packets are all sent.
module _ (size p : ℕ) (s : Sender) (r : Running size (some p) s) where
  pub pass-Running :
      IsDone s p
      → Running size (next_node p s.send_queue) s
        × (measure size (next_node p s.send_queue) s < measure size (some p) s)
  pass-Running d = elim (Option-cases (next_node p s.send_queue)) [
    | inl e ↦ rw e (
      record {
        valid = r.valid;
        points = tt;
        visited = end-before (IsDone s) p s.send_queue r.visited d e;
        fits = r.fits;
      },
      omega arith,
    )
    | inr (m, e) ↦
        let once = queued_once m s r.valid (next-occurs p m s.send_queue e) in
        rw e (
          record {
            valid = r.valid;
            points = once.0;
            visited = next-before (IsDone s) p m s.send_queue r.visited d e;
            fits = r.fits;
          },
          omega (arith, length-after-next p m s.send_queue e once.1),
        )
  ]

  finished : Sender
  finished = finish p s

  finish-queue : finished.send_queue ≡ remove p s.send_queue
  unfolding finished finish dequeue set_state
  finish-queue = refl

  finish-info : (q : ℕ) → (finished.heap q).info ≡ (s.heap q).info
  unfolding finished finish dequeue set_state
  finish-info q =
      by_address (λ r. (finished.heap r).info ≡ (s.heap r).info) p q (rw ==_refl refl)
        (λ e. rw e refl)

  finish-IsValid : IsValid finished
  unfolding finished finish dequeue set_state
  finish-IsValid =
      IsHeap-of_idle s.heap p (λ m. record m { state = sent }) (remove p s.send_queue)
        (Others-remove s.heap p _ r.valid) refl
        (λ _.
          let z = r.valid.sized p (ground (arith, r.points)) in
          record { total = z.total; some_packet = z.some_packet })

  -- What was passed is still done, and there is less left to do.
  finish-done : (xs : List ℕ) → All (IsDone s) xs → All (IsDone finished) xs
  finish-done xs d = All-map (IsDone s) (IsDone finished) (λ q h. rw (finish-info q) h) xs d

  finish-less :
      (pending finished.heap finished.send_queue + length finished.send_queue) * (size + 1)
        + (size + 1)
      ≤ (pending s.heap s.send_queue + length s.send_queue) * (size + 1)
  finish-less = mul_step _ _ (size + 1) (
      rw finish-queue (
        omega (
          arith,
          total-congr (λ q. sendable (s.heap q)) (λ q. sendable (finished.heap q))
              (λ q. rw (finish-info q)) (remove p s.send_queue),
          total-remove (λ q. sendable (s.heap q)) p s.send_queue,
          length-remove p s.send_queue (linked_at p s r.valid r.points),
        )))

  finish-size : length finished.send_queue ≤ size
  finish-size =
      rw finish-queue
        (omega (arith, length-remove p s.send_queue (linked_at p s r.valid r.points), r.fits))

  next_linked :
      (m : ℕ)
      → next_node p s.send_queue ≡ some m
      → (is_in_progress (finished.heap m).state ≡ true)
        × (length (after m finished.send_queue) < length finished.send_queue)
  next_linked m e =
      let k : 0 < occurrences m finished.send_queue =
        rw finish-queue (next-occurs-remove p m s.send_queue (linked_at p s r.valid r.points) e) in
      (
        (queued_once m finished finish-IsValid k).0,
        length-after m finished.send_queue ((contains_iff m finished.send_queue).1 k),
      )

  pub finish-Running :
      Running size (next_node p s.send_queue) (finish p s)
      × (measure size (next_node p s.send_queue) (finish p s) < measure size (some p) s)
  unfolding finished
  finish-Running = elim (Option-cases (next_node p s.send_queue)) [
    | inl e ↦ rw e (
      record {
        valid = finish-IsValid;
        points = tt;
        visited =
            rw finish-queue
              (finish-done _ (end-before-remove (IsDone s) p s.send_queue r.visited e));
        fits = finish-size;
      },
      omega (arith, finish-less),
    )
    | inr (m, e) ↦
        let there = next_linked m e in
        rw e (
          record {
            valid = finish-IsValid;
            points = there.0;
            visited =
                rw finish-queue
                  (finish-done _ (next-before-remove (IsDone s) p m s.send_queue r.visited e));
            fits = finish-size;
          },
          omega (arith, finish-less, finish-size, there.1),
        )
  ]
