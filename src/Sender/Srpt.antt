-- ===== src/Sender/Srpt.antt =====
-- `trySend` keeps the invariant: the packet that it sends exists, and the queue stays in SRPT order.
use homa.Base.{
  ℕ, zero, suc, ◌+◌, ◌-◌, ◌<◌, ◌≡◌, ap, true, some, List, [], ◌∷◌, arith, ◌==◌, if◌then◌else◌,
  ==_refl, by_address, get_elem?, IsSorted-congr,
}
use homa.Protocol.{data_header_size}
use homa.Sender.{is_in_progress, DataPacket, Message, Sender, output}
use native.Mathlib.Numerals.{add-one}
use homa.Intrusive.Members.{occurrences, occurrences-prioritize, All_of_at}
use homa.Intrusive.Order.{lowered-IsSorted}
use homa.Sender.Messages.{compare_priority}
use homa.Sender.Transmit.{send_packet}
use homa.Sender.Queue.{data_bytes, drop, times, unsent_key, IsQueued, IsSized, is_active, IsValid}

-- The packet at an index is the first of those from that index on.
data_bytes-drop :
    (ks : List DataPacket) (i : ℕ) (k : DataPacket)
    → get_elem? ks i ≡ some k
    → data_bytes (drop i ks) ≡ (k.length - data_header_size) + data_bytes (drop (suc i) ks)
data_bytes-drop [] i k e = cc
data_bytes-drop (x ∷ ks) zero k e = ground arith
data_bytes-drop (x ∷ ks) (suc i) k e = data_bytes-drop ks i k e

module _ (p : ℕ) (packet : DataPacket) (s : Sender) (v : IsValid s)
    (busy : is_in_progress (s.heap p).state ≡ true)
    (room : (s.heap p).info.packets_sent < (s.heap p).info.packets_granted)
    (here : get_elem? (s.heap p).packets (s.heap p).info.packets_sent ≡ some packet) where
  abbrev lowered : ℕ → Message
  lowered q =
      if q == p
      then record (s.heap q) {
        info = record ((s.heap q).info) {
          unsent_bytes = (s.heap q).info.unsent_bytes - (packet.length - data_header_size);
        };
      }
      else s.heap q

  sent_once : IsQueued ((send_packet p packet s).heap p)
  unfolding send_packet output
  sent_once =
      let k = v.ordered.info p busy in
      rw ==_refl (record {
        sent_le = omega arith;
        granted_le = k.granted_le;
        several = k.several;
        unsent = omega (
          arith,
          k.unsent,
          data_bytes-drop (s.heap p).packets _ packet here,
          ap (λ n. data_bytes (drop n (s.heap p).packets)) (add-one (s.heap p).info.packets_sent),
        );
      })

  -- Sending the next packet of a message in progress, one that is granted and present, keeps the
  -- invariant: the message, with its fewer unsent bytes, stands in the right place of the queue.
  pub send_packet-IsValid : IsValid (send_packet p packet s)
  unfolding send_packet output compare_priority
  send_packet-IsValid = record {
    ordered = record {
      members = λ q.
          by_address (λ r. occurrences r queue ≡ times (after r).state) p q
            (rw (==_refl, occurrences-prioritize (compare_priority lowered) p p s.send_queue)
              (v.ordered.members p))
            (λ e.
              rw (e, occurrences-prioritize (compare_priority lowered) q p s.send_queue)
                (v.ordered.members q));
      info = λ q.
          by_address (λ r. is_in_progress (after r).state ≡ true → IsQueued (after r)) p q
            (λ _. sent_once) (λ e. rw e (v.ordered.info q));
      sorted =
          IsSorted-congr (unsent_key lowered) (unsent_key after) queue
            (All_of_at _ queue λ q _. same_key q)
            (lowered-IsSorted (unsent_key s.heap) (unsent_key lowered) p (λ q e. rw (e, unsent_key))
              s.send_queue once v.ordered.sorted (rw (==_refl, unsent_key) (omega arith)));
    };
    sized = λ q.
        by_address (λ r. is_active (after r).state ≡ true → IsSized (after r)) p q
          (rw ==_refl
            (λ e. let z = v.sized p e in record { total = z.total; some_packet = z.some_packet }))
          (λ e. rw e (v.sized q));
  }
    where
      after : ℕ → Message
      after = (send_packet p packet s).heap

      queue : List ℕ
      queue = (send_packet p packet s).send_queue

      once : occurrences p s.send_queue ≡ 1
      once = rw (v.ordered.members p, times, busy)

      same_key : (q : ℕ) → unsent_key lowered q ≡ unsent_key after q
      same_key q =
          by_address (λ r. unsent_key lowered r ≡ unsent_key after r) p q (rw (==_refl, unsent_key))
            (λ e. rw (e, unsent_key))
