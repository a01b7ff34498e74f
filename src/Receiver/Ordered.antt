-- ===== src/Receiver/Ordered.antt =====
-- Every change of the schedule keeps the messages of each peer, and the peers, in SRPT order.
use homa.Base.{
  ◌⊎◌, ℕ, ◌+◌, ◌≤◌, ◌≡◌, refl, ap, ◌∙◌, inl, inr, Bool, true, false, none, some, List, [], ◌∷◌,
  arith, ◌==◌, ==_iff, if◌then◌else◌, ==_refl, maybe, Bool-cases, Option-cases, IsSorted,
}
use homa.Intrusive.{contains, remove, deprioritize, prioritize}
use homa.Intrusive.Order.{lowered-IsSorted, comp}
use homa.Intrusive.Members.{
  occurrences, occurrences-prioritize, occurrences-deprioritize, occurrences-remove, contains_iff,
}
use homa.Intrusive.Firsts.{first, first_le}
use homa.Receiver.{DriverPacket, Receiver}
use homa.Receiver.Handlers.{account}
use homa.Receiver.Schedule.{set_peer, is_front, reorder, schedule, unschedule, update_schedule}
use homa.Receiver.Order.{
  remaining, remaining-peer, HasOrder, IsHeld, schedule-HasOrder, unschedule-HasOrder,
  account-HasOrder,
}
use homa.Receiver.Peers.{
  has_any, has_any_member, peer_key, ArePeers, inserted-ArePeers, moved-ArePeers,
  reordered-ArePeers, emptied-ArePeers,
}

-- The peers that hold messages stand, once each, in the order of the bytes that remain for their first
-- message.
unfoldable pub HasPeers : Receiver → Type 0
HasPeers s = ArePeers (remaining s.heap) s.peer_table s.scheduled_peers

list_cases : (xs : List ℕ) → (xs ≡ []) ⊎ ((x : ℕ) × (ys : List ℕ) × (xs ≡ x ∷ ys))
list_cases [] = inl refl
list_cases (x ∷ xs) = inr (x, xs, refl)

contains_not : (n : ℕ) (xs : List ℕ) → occurrences n xs ≡ 0 → contains n xs ≡ false
contains_not n xs e = elim (Bool-cases (contains n xs)) [
  | inl c ↦ absurd (omega (arith, e, (contains_iff n xs).0 c))
  | inr c ↦ c
]

occurrences-insert :
    (comp : ℕ → ℕ → Bool) (m p : ℕ) (ms : List ℕ)
    → occurrences m (deprioritize comp p (p ∷ ms)) ≡ (if p == m then 1 else 0) + occurrences m ms
occurrences-insert comp m p ms = ground (arith, occurrences-deprioritize comp m p (p ∷ ms))

schedule-HasPeers :
    (p : ℕ) (s : Receiver)
    → HasOrder s
    → ((a : ℕ) → occurrences p (s.peer_table a) ≡ 0)
    → HasPeers s
    → HasPeers (schedule p s)
unfolding HasOrder HasPeers schedule
schedule-HasPeers p s o free h =
    let ip = (s.heap p).source.ip in
    let key = remaining s.heap in
    let same = remaining-peer p (some ip) s in
    let messages = deprioritize (comp key) p (p ∷ s.peer_table ip) in
    let count : (m : ℕ)
        → occurrences m messages ≡ (if p == m then 1 else 0) + occurrences m (s.peer_table ip) =
      λ m. occurrences-insert (comp key) m p (s.peer_table ip) in
    elim (list_cases (s.peer_table ip)) [
      | inl e ↦ rw (contains_not ip s.scheduled_peers (h.listed ip ∙ ap has_any e)) (
          inserted-ArePeers key _ p ip s.peer_table (s.peer_table ip) messages s.scheduled_peers
            refl (λ m _. same m) (λ a _. free a) h e
            (has_any_member p messages (ground (arith, count p, ==_refl p))))
      | inr (x, xs, e) ↦
          rw ((contains_iff ip s.scheduled_peers).1 (omega (arith, h.listed ip ∙ ap has_any e))) (
            moved-ArePeers key _ p ip s.peer_table (s.peer_table ip) messages s.scheduled_peers refl
              (λ m _. same m) (λ a _. free a) h x xs e (omega (arith, same p)) (rw e at (o ip))
              (rw (==_refl ip) at (schedule-HasOrder p s o ip))
              (λ m. ground (arith, count m, ap (occurrences m) e))
              (λ m f. ground (arith, f, count m, ap (occurrences m) e, ==_iff p m, ==_iff m p)))
    ]

-- The lists of the other peers do not have the message.
held_away :
    (p ip : ℕ) (s : Receiver)
    → IsHeld p s
    → (s.heap p).info.peer ≡ some ip
    → (a : ℕ) → occurrences p (s.peer_table a) ≡ (if a == ip then 1 else 0)
unfolding IsHeld
held_away p ip s held n a = held a ∙ ap (maybe 0 (λ i. if a == i then 1 else 0)) n

shortened-ArePeers :
    (key key' : ℕ → ℕ) (p ip : ℕ) (table : ℕ → List ℕ) (ys peers : List ℕ)
    → ((m : ℕ) → (m == p) ≡ false → key' m ≡ key m)
    → ((a : ℕ) → (a == ip) ≡ false → occurrences p (table a) ≡ 0)
    → ArePeers key table peers
    → has_any (table ip) ≡ 1
    → ((q : ℕ) (qs : List ℕ) → ys ≡ q ∷ qs → first key (table ip) ≤ key' q)
    → ArePeers key'
        (set_peer ip ys table)
        (reorder (comp (peer_key key' (set_peer ip ys table))) ip ys peers)
unfolding reorder
shortened-ArePeers key key' p ip table [] peers same away h any up =
    emptied-ArePeers key key' p ip table (table ip) [] peers refl same away h refl any
shortened-ArePeers key key' p ip table (q ∷ qs) peers same away h any up =
    reordered-ArePeers key key' p ip table (table ip) (q ∷ qs) peers refl same away h q qs refl any
      (up q qs refl)

unschedule-HasPeers :
    (p : ℕ) (s : Receiver) → IsHeld p s → HasOrder s → HasPeers s → HasPeers (unschedule p s)
unfolding HasOrder HasPeers unschedule
unschedule-HasPeers p s held o h = elim (Option-cases (s.heap p).info.peer) [
  | inl n ↦ rw n h
  | inr (ip, n) ↦
      let key = remaining s.heap in
      let same = remaining-peer p none s in
      let at = held_away p ip s held n in
      let there : occurrences p (s.peer_table ip) ≡ 1 = at ip ∙ rw ==_refl refl in
      rw n (
        shortened-ArePeers key _ p ip s.peer_table (remove p (s.peer_table ip)) s.scheduled_peers
          (λ m _. same m) (λ a f. at a ∙ rw f refl) h
          (has_any_member p (s.peer_table ip) (omega (arith, there)))
          (λ q qs e.
            let member : contains q (s.peer_table ip) ≡ true =
              (contains_iff q (s.peer_table ip)).1 (
                ground (
                  arith,
                  occurrences-remove q p (s.peer_table ip),
                  ap (occurrences q) e,
                  ==_refl q,
                )) in
            omega (arith, same q, first_le key q (s.peer_table ip) (o ip) member)))
]

-- A message whose key fell moves up.
promoted-ArePeers :
    (key key' : ℕ → ℕ) (p ip : ℕ) (table : ℕ → List ℕ) (peers : List ℕ)
    → ((m : ℕ) → (m == p) ≡ false → key' m ≡ key m)
    → key' p ≤ key p
    → ((a : ℕ) → occurrences p (table a) ≡ (if a == ip then 1 else 0))
    → IsSorted key (table ip)
    → ArePeers key table peers
    → let ys = prioritize (comp key') p (table ip) in
      ArePeers key' (set_peer ip ys table) (
        if is_front p ys
        then prioritize (comp (peer_key key' (set_peer ip ys table))) ip peers
        else peers)
promoted-ArePeers key key' p ip table peers same low at o h =
    let there : occurrences p (table ip) ≡ 1 = at ip ∙ rw ==_refl refl in
    let count = λ (m : ℕ). occurrences-prioritize (comp key') m p (table ip) in
    elim (list_cases (table ip)) [
      | inl e ↦ absurd (omega (arith, there, ap (occurrences p) e))
      | inr (x, xs, e) ↦
          moved-ArePeers key key' p ip table (table ip) (prioritize (comp key') p (table ip)) peers
            refl same (λ a f. at a ∙ rw f refl) h x xs e low (rw e at o)
            (lowered-IsSorted key key' p same (table ip) there o low)
            (λ m. omega (arith, count m, ap (occurrences m) e))
            (λ m f. omega (arith, count m, ap (occurrences m) e))
    ]

account-HasPeers :
    (p : ℕ) (packet : DriverPacket) (s : Receiver)
    → (s.heap p).transport_header_length ≤ packet.length
    → IsHeld p s
    → HasOrder s
    → HasPeers s
    → HasPeers (account p packet s)
unfolding HasOrder HasPeers account update_schedule
account-HasPeers p packet s whole held o h = elim (Bool-cases (s.heap p).scheduled) [
  | inr e ↦ rw e h
  | inl e ↦ elim (Option-cases (s.heap p).info.peer) [
    | inl n ↦ rw (e, n) h
    | inr (ip, n) ↦
        rw (e, n)
          (rw ==_refl (
            promoted-ArePeers (remaining s.heap) _ p ip s.peer_table s.scheduled_peers
              (λ q away. rw (away, remaining) refl)
              (rw (==_refl p, remaining) (omega (arith, whole))) (held_away p ip s held n) (o ip)
              h))
  ]
]

-- A change of the schedule: a message that no peer holds is scheduled, and one that a peer holds, and no
-- other, is unscheduled, or bytes of it come, in a packet that is no shorter than its header.
pub data Change (s : Receiver) : Receiver → Type 0 where
  schedules : (p : ℕ) → ((a : ℕ) → occurrences p (s.peer_table a) ≡ 0) → Change s (schedule p s)
  unschedules : (p : ℕ) → IsHeld p s → Change s (unschedule p s)
  accounts :
      (p : ℕ) (packet : DriverPacket)
      → (s.heap p).transport_header_length ≤ packet.length
      → IsHeld p s
      → Change s (account p packet s)

-- Every change of the schedule (a message is scheduled or unscheduled, or a packet of it is accounted
-- for that is no shorter than its header) keeps it in SRPT order: the messages of each peer stand in
-- the order of the bytes that remain, the peers in the order of the bytes that remain for their first
-- message, and a peer is listed once if it holds a message, and not at all if it holds none.
pub Change-HasPeers :
    {s s' : Receiver} → Change s s' → HasOrder s → HasPeers s → HasOrder s' × HasPeers s'
Change-HasPeers {s} (schedules p free) o h =
    (schedule-HasOrder p s o, schedule-HasPeers p s o free h)
Change-HasPeers {s} (unschedules p held) o h =
    (unschedule-HasOrder p s o, unschedule-HasPeers p s held o h)
Change-HasPeers {s} (accounts p packet whole held) o h =
    (account-HasOrder p packet s whole held o, account-HasPeers p packet s whole held o h)
