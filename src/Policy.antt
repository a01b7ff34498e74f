-- ===== src/Policy.antt =====
-- src/Policy.h, src/Policy.cc: network priorities for unscheduled and scheduled packets.
-- The driver's bandwidth and highest priority enter as numbers.
pub mod Laws
mod Tests
use homa.Base.{
  ℕ, suc, ◌+◌, ◌-◌, ◌*◌, ◌/◌, ◌%◌, ◌^◌, Option, none, some, List, [], ◌∷◌, ltb, ◌==◌, if◌then◌else◌,
  length,
}

-- `Policy::Unscheduled`
pub record Unscheduled : Type 0 where
  pub version : ℕ
  pub unscheduled_byte_limit : ℕ
  pub priority : ℕ

-- `Policy::Scheduled`
pub record Scheduled : Type 0 where
  pub max_scheduled_priority : ℕ
  pub degree_overcommitment : ℕ
  pub min_scheduled_bytes : ℕ
  pub max_scheduled_bytes : ℕ

-- `Manager::UnscheduledPolicy`
pub record UnscheduledPolicy : Type 0 where
  pub version : ℕ
  pub highest_priority : ℕ
  pub priority_cutoff_bytes : List ℕ

-- `Policy::Manager`; `peer_policies` maps an address to the policy stored for it.
pub record Manager : Type 0 where
  pub local_unscheduled_policy : UnscheduledPolicy
  pub local_scheduled_policy : Scheduled
  pub peer_policies : ℕ → Option UnscheduledPolicy
  pub rtt_bytes : ℕ
  pub max_priority : ℕ

-- `Default::RTT_TIME_US`
abbrev pub rtt_time_us : ℕ
rtt_time_us = 8

-- `Default::UNSCHEDULED_PRIORITY_CUTOFFS`
abbrev pub unscheduled_priority_cutoffs : List ℕ
unscheduled_priority_cutoffs = 469 ∷ 5521 ∷ 15267 ∷ []

-- `Default::MAX_OVERCOMMIT_COUNT`
abbrev pub max_overcommit_count : ℕ
max_overcommit_count = 4

-- The policy of a transport about which nothing is known.
unfoldable pub default_policy : ℕ → UnscheduledPolicy
default_policy max_priority = record {
  version = 0;
  highest_priority = max_priority;
  priority_cutoff_bytes = unscheduled_priority_cutoffs;
}

-- The constructor. `RTT_BYTES` is a `uint32_t`, and `maxScheduledBytes` an `int` set from twice that.
-- The subtraction under `std::max(0, …)` stops at 0, as `-` does here.
unfoldable pub make_manager : ℕ → ℕ → Manager
unfolding default_policy
make_manager bandwidth max_priority =
    let rtt_bytes = (rtt_time_us * (bandwidth / 8)) % 2 ^ 32 in
    record {
      local_unscheduled_policy = default_policy max_priority;
      local_scheduled_policy = record {
        max_scheduled_priority =
            max_priority - (length (default_policy max_priority).priority_cutoff_bytes + 1);
        degree_overcommitment = max_overcommit_count;
        min_scheduled_bytes = rtt_bytes;
        max_scheduled_bytes = (2 * rtt_bytes) % 2 ^ 32;
      };
      peer_policies = λ _. none;
      rtt_bytes = rtt_bytes;
      max_priority = max_priority;
    }

-- `Manager::getResendPriority`
unfoldable pub get_resend_priority : Manager → ℕ
get_resend_priority m = m.max_priority

-- `Manager::getScheduledPolicy`
unfoldable pub get_scheduled_policy : Manager → Scheduled
get_scheduled_policy m = m.local_scheduled_policy

-- The loop over the cutoffs: how many come before the first that exceeds the length.
unfoldable pub rank : ℕ → List ℕ → ℕ
rank message_length [] = 0
rank message_length (c ∷ cutoffs) =
    let later = rank message_length cutoffs in if ltb message_length c then 0 else suc later

abbrev or_default : ℕ → Option UnscheduledPolicy → UnscheduledPolicy
or_default max_priority none = default_policy max_priority
or_default max_priority (some p) = p

-- `peerPolicies.insert`: the policy of a peer, the default one if it has none.
unfoldable pub peer_policy : Manager → ℕ → UnscheduledPolicy
peer_policy m destination = or_default m.max_priority (m.peer_policies destination)

-- `Manager::getUnscheduledPolicy`: the answer, and the manager with the peer's policy stored.
unfoldable pub get_unscheduled_policy : Manager → ℕ → ℕ → Unscheduled × Manager
get_unscheduled_policy m destination message_length =
    let peer = peer_policy m destination in
    (
      record {
        version = peer.version;
        unscheduled_byte_limit = m.rtt_bytes;
        priority = peer.highest_priority - rank message_length peer.priority_cutoff_bytes;
      },
      record m { peer_policies = λ a. if a == destination then some peer else m.peer_policies a },
    )
