-- ===== src/Receiver/Turns.antt =====
-- src/Receiver.cc: the GRANTs of one call of `trySendGrants`.
use homa.Base.{ℕ, ◌-◌, ◌≤◌, ◌<◌, ◌≡◌, true, List, [], ◌∷◌, if◌then◌else◌, maybe}
use homa.Intrusive.{front, contains}
use homa.Policy.{Scheduled}
use homa.Receiver.{Output, Message, Receiver}
use homa.Receiver.Grants.{needs_grant, unused_priorities}
use homa.Receiver.Granting.{subject, grant_output}

-- The GRANT of the message at an address in a turn. The first turn has the highest priority, less
-- those that are not used.
abbrev pub grant_of : Scheduled → Receiver → (slot p : ℕ) → Output
grant_of policy s slot p =
    grant_output policy
      (policy.max_scheduled_priority - slot - unused_priorities policy s.scheduled_peers)
      (subject (s.heap p))

-- A turn in which a GRANT was sent, and the address of its message.
pub record Turn : Type 0 where
  pub slot : ℕ
  pub address : ℕ

-- Turns from the last to the first, each after the one behind it; all from `low` on and below `high`.
abbrev pub Within : (low high : ℕ) → List Turn → Type 0
Within low high [] = Unit
Within low high (t ∷ ts) = low ≤ t.slot × t.slot < high × Within low t.slot ts

-- The turn of a message, if it needs a GRANT.
abbrev pub turn : Scheduled → (slot p : ℕ) → Message → List Turn
turn policy slot p m =
    if needs_grant policy m.info then (record { slot = slot; address = p }) ∷ [] else []

-- Whether some peer holds the message at an address in the schedule.
abbrev pub IsScheduled : Receiver → ℕ → Type 0
IsScheduled s p = (ip : ℕ) × (contains p (s.peer_table ip) ≡ true)

-- The turn of the first message of the first peer.
abbrev pub first_turn : Scheduled → Receiver → List Turn
first_turn policy s =
    maybe [] (λ ip. maybe [] (λ p. turn policy 0 p (s.heap p)) (front (s.peer_table ip)))
      (front s.scheduled_peers)

module _ (policy : Scheduled) (s : Receiver) where
  grant : Turn → Output
  grant t = grant_of policy s t.slot t.address

  unused : ℕ
  unused = unused_priorities policy s.scheduled_peers
