-- ===== src/Policy/Tests.antt =====
-- The theorems on policies at a driver of 10 Gbps with eight priorities.
use homa.Base.{ℕ, ◌+◌, ◌≤◌, ◌<◌, ◌≡◌, ◌↔◌, ◌⊎◌}
use homa.Policy.{
  Manager, make_manager, get_unscheduled_policy, get_resend_priority, peer_policy,
  get_scheduled_policy,
}
use homa.Policy.Laws.{
  IsValid, make_manager-IsValid, get_unscheduled_policy_lem, degree_overcommitment_iff,
}

abbrev manager : Manager
manager = make_manager 10000 7

get_unscheduled_policy_example :
    let (answer, m') = get_unscheduled_policy manager 3 6000 in
    (answer.priority ≤ get_resend_priority manager)
    × (answer.unscheduled_byte_limit ≡ manager.rtt_bytes)
    × IsValid m'
    × ((a : ℕ) → peer_policy m' a ≡ peer_policy manager a)
get_unscheduled_policy_example =
    get_unscheduled_policy_lem manager 3 6000 (make_manager-IsValid 10000 7)

degree_overcommitment_example :
    let policy = get_scheduled_policy (make_manager 10000 7) in
    ((policy.max_scheduled_priority < policy.degree_overcommitment) ↔ (7 < 8))
    × ((policy.max_scheduled_priority + 4 ≤ 7) ⊎ (policy.max_scheduled_priority ≡ 0))
degree_overcommitment_example = degree_overcommitment_iff 10000 7
