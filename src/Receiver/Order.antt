-- ===== src/Receiver/Order.antt =====
-- The order of the schedule: peers and their messages stand in the order of the bytes that remain.
use homa.Base.{
  ℕ, ◌≤◌, ◌≡◌, refl, sym, inl, inr, false, Option, none, some, List, [], ◌∷◌, arith, ◌==◌,
  if◌then◌else◌, ==_refl, by_address, maybe, Bool-cases, Option-cases, All, IsSorted,
  IsSorted-congr,
}
use homa.Intrusive.{prioritize}
use homa.Intrusive.Order.{insert-IsSorted, lowered-IsSorted, remove-IsSorted, agree_away, comp}
use homa.Intrusive.Members.{occurrences}
use homa.Receiver.{Message, DriverPacket, Receiver, modify_info}
use homa.Receiver.Handlers.{account}
use homa.Receiver.Schedule.{set_peer, schedule, unschedule, update_schedule}

abbrev pub remaining : (ℕ → Message) → ℕ → ℕ
remaining heap p = (heap p).info.bytes_remaining

-- Each peer's messages stand in the order of the bytes that remain (SRPT).
unfoldable pub HasOrder : Receiver → Type 0
HasOrder s = (ip : ℕ) → IsSorted (remaining s.heap) (s.peer_table ip)

pub all_same :
    (key key' : ℕ → ℕ) → ((q : ℕ) → key' q ≡ key q) → (xs : List ℕ) → All (λ q. key q ≡ key' q) xs
all_same key key' same [] = tt
all_same key key' same (x ∷ xs) = (sym (same x), all_same key key' same xs)

-- A change of one peer's list, where no key changes.
set_peer-IsSorted :
    (key key' : ℕ → ℕ) (ip : ℕ) (ps : List ℕ) (table : ℕ → List ℕ)
    → ((q : ℕ) → key' q ≡ key q)
    → ((a : ℕ) → IsSorted key (table a))
    → IsSorted key ps
    → (a : ℕ) → IsSorted key' (set_peer ip ps table a)
set_peer-IsSorted key key' ip ps table same o s a =
    IsSorted-congr key key' (set_peer ip ps table a) (all_same key key' same _)
      (elim (Bool-cases (a == ip)) [ inl e ↦ rw e s | inr e ↦ rw e (o a) ])

-- A change of a message's peer changes no bytes that remain.
pub remaining-peer :
    (p : ℕ) (o : Option ℕ) (s : Receiver) (q : ℕ)
    → remaining (modify_info p (λ i. record i { peer = o }) s).heap q ≡ remaining s.heap q
remaining-peer p o s q =
    by_address
      (λ q. remaining (modify_info p (λ i. record i { peer = o }) s).heap q ≡ remaining s.heap q) p
      q (rw (==_refl p, remaining) refl) (λ e. rw (e, remaining) refl)

-- Scheduling a message keeps every peer's messages in the order of the bytes that remain.
pub schedule-HasOrder : (p : ℕ) (s : Receiver) → HasOrder s → HasOrder (schedule p s)
unfolding HasOrder schedule
schedule-HasOrder p s o =
    set_peer-IsSorted (remaining s.heap) _ (s.heap p).source.ip _ s.peer_table
      (remaining-peer p (some (s.heap p).source.ip) s) o
      (insert-IsSorted (remaining s.heap) p _ (o (s.heap p).source.ip))

-- Taking a message out of the schedule keeps every peer's messages in that order.
pub unschedule-HasOrder : (p : ℕ) (s : Receiver) → HasOrder s → HasOrder (unschedule p s)
unfolding HasOrder unschedule
unschedule-HasOrder p s o = elim (Option-cases (s.heap p).info.peer) [
  | inl e ↦ rw e o
  | inr (ip, e) ↦ rw e (
      set_peer-IsSorted (remaining s.heap) _ ip _ s.peer_table (remaining-peer p none s) o
        (remove-IsSorted (remaining s.heap) p _ (o ip)))
]

-- The message stands once in the list of the peer that holds it, and in no other list.
unfoldable pub IsHeld : ℕ → Receiver → Type 0
IsHeld p s =
    (a : ℕ)
    → occurrences p (s.peer_table a) ≡ maybe 0 (λ ip. if a == ip then 1 else 0) (s.heap p).info.peer

lowered-table :
    (key key' : ℕ → ℕ) (p ip : ℕ) (table : ℕ → List ℕ)
    → ((q : ℕ) → (q == p) ≡ false → key' q ≡ key q)
    → key' p ≤ key p
    → ((a : ℕ) → occurrences p (table a) ≡ (if a == ip then 1 else 0))
    → ((a : ℕ) → IsSorted key (table a))
    → (a : ℕ) → IsSorted key' (set_peer ip (prioritize (comp key') p (table ip)) table a)
lowered-table key key' p ip table same low held o a = elim (Bool-cases (a == ip)) [
  | inl e ↦ rw e (
      let once = held ip in
      lowered-IsSorted key key' p same (table ip) (rw (==_refl ip) at once) (o ip) low)
  | inr e ↦ rw e (
      let gone = held a in
      IsSorted-congr key key' (table a) (agree_away key key' p same (table a) (rw e at gone)) (o a))
]

-- Accounting for the bytes of a packet that was added keeps every peer's messages in that order, where
-- the message stands once in the list of the peer that holds it, and in no other, and the packet is no
-- shorter than its header.
pub account-HasOrder :
    (p : ℕ) (packet : DriverPacket) (s : Receiver)
    → (s.heap p).transport_header_length ≤ packet.length
    → IsHeld p s
    → HasOrder s
    → HasOrder (account p packet s)
unfolding HasOrder IsHeld account update_schedule
account-HasOrder p packet s whole held o = elim (Bool-cases (s.heap p).scheduled) [
  | inr e ↦ rw e o
  | inl e ↦ elim (Option-cases (s.heap p).info.peer) [
    | inl n ↦ rw (e, remaining, n) o
    | inr (ip, n) ↦
        rw (e, n)
          (rw ==_refl (
            lowered-table (remaining s.heap) _ p ip s.peer_table
              (λ q away. rw (away, remaining) refl)
              (rw (==_refl p, remaining) (omega (arith, whole))) (rw n at held) o))
  ]
]
