-- ===== src/Policy/Laws.antt =====
-- What the policies promise to the sender and the receiver.
use homa.Base.{
  ℕ, ◌+◌, ◌≤◌, ◌<◌, ◌≡◌, refl, sym, ap, ◌↔◌, ◌⊎◌, inl, inr, some, List, [], ◌∷◌, arith, ◌==◌,
  if◌then◌else◌, ==_iff, Bool-cases, Option-cases,
}
use homa.Policy.{
  UnscheduledPolicy, Manager, default_policy, make_manager, get_resend_priority,
  get_scheduled_policy, rank, peer_policy, get_unscheduled_policy,
}

-- No policy known to the manager names a priority above those of the driver.
abbrev pub IsValid : Manager → Type 0
IsValid m =
    (a : ℕ) (p : UnscheduledPolicy)
    → m.peer_policies a ≡ some p
    → p.highest_priority ≤ m.max_priority

pub make_manager-IsValid :
    (bandwidth max_priority : ℕ) → IsValid (make_manager bandwidth max_priority)
unfolding make_manager
make_manager-IsValid bandwidth max_priority a p e = cc

peer_policy_le :
    (m : Manager) (a : ℕ) → IsValid m → (peer_policy m a).highest_priority ≤ m.max_priority
unfolding peer_policy default_policy
peer_policy_le m a v = elim (Option-cases (m.peer_policies a)) [
  | inl e ↦ rw e (omega arith)
  | inr (p, e) ↦ rw e (v a p e)
]

stored_policy :
    (m : Manager) (d a : ℕ)
    → peer_policy
        (record m {
          peer_policies = λ b. if b == d then some (peer_policy m d) else m.peer_policies b;
        })
        a
      ≡ peer_policy m a
unfolding peer_policy
stored_policy m d a = elim (Bool-cases (a == d)) [
  | inl here ↦ rw here (ap (λ b. peer_policy m b) (sym ((==_iff a d).0 here)))
  | inr there ↦ rw there
]

-- For a valid manager, a query answers with a priority of the driver and with `RTT_BYTES` as the limit, keeps the manager
-- valid, and leaves the policy of every peer as it was.
pub get_unscheduled_policy_lem :
    (m : Manager) (destination message_length : ℕ)
    → IsValid m
    → let (answer, m') = get_unscheduled_policy m destination message_length in
      (answer.priority ≤ get_resend_priority m)
      × (answer.unscheduled_byte_limit ≡ m.rtt_bytes)
      × IsValid m'
      × ((a : ℕ) → peer_policy m' a ≡ peer_policy m a)
unfolding get_unscheduled_policy get_resend_priority
get_unscheduled_policy_lem m d l v = (omega (arith, peer_policy_le m d v), refl, valid, same)
  where
    stored : Manager
    stored = (get_unscheduled_policy m d l).1

    valid : IsValid stored
    valid a p e = elim (Bool-cases (a == d)) [
      | inl here ↦ ground (arith, peer_policy_le m d v)
      | inr there ↦ v a p (rw there at e)
    ]

    same : (a : ℕ) → peer_policy stored a ≡ peer_policy m a
    same a = stored_policy m d a

rank_mono : (l l' : ℕ) (cutoffs : List ℕ) → l ≤ l' → rank l cutoffs ≤ rank l' cutoffs
unfolding rank
rank_mono l l' [] h = omega arith
rank_mono l l' (c ∷ cutoffs) h = ground (arith, rank_mono l l' cutoffs h)

-- A longer message to the same peer never gets a higher priority.
pub priority_antitone :
    (m : Manager) (destination l l' : ℕ)
    → l ≤ l'
    → (get_unscheduled_policy m destination l').0.priority
      ≤ (get_unscheduled_policy m destination l).0.priority
unfolding get_unscheduled_policy
priority_antitone m d l l' h =
    omega (arith, rank_mono l l' (peer_policy m d).priority_cutoff_bytes h)

-- With at most eight priority levels the default policy grants more messages at once than it has
-- scheduled priorities, as the receiver asserts, and its scheduled priorities stay at least four
-- levels below the highest one or are just the lowest level. With more levels the assertion fails.
pub degree_overcommitment_iff :
    (bandwidth max_priority : ℕ)
    → let policy = get_scheduled_policy (make_manager bandwidth max_priority) in
      ((policy.max_scheduled_priority < policy.degree_overcommitment) ↔ (max_priority < 8))
      × ((policy.max_scheduled_priority + 4 ≤ max_priority) ⊎ (policy.max_scheduled_priority ≡ 0))
unfolding get_scheduled_policy make_manager
degree_overcommitment_iff bandwidth max_priority =
    ((λ h. omega arith, λ h. omega arith), ground arith)
