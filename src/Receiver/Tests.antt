-- ===== src/Receiver/Tests.antt =====
-- The receiver's theorems at a scheduled message of five packets, of which the first and the third
-- have come.
use homa.Base.{
  ℕ, ◌-◌, min, ◌+◌, ◌≤◌, ◌≡◌, refl, ◌⊎◌, inl, inr, true, false, not, none, some, List, [], ◌∷◌,
  arith, ◌==◌, if◌then◌else◌, Bool-cases,
}
use homa.Policy as HomaPolicy
use homa.Policy.{Scheduled}
use homa.Receiver.{
  in_progress, DriverPacket, ScheduledMessageInfo, Message, Config, Receiver, max_message_packets,
  make_receiver,
}
use homa.Receiver.Messages.{Range, is_stored, released_ranges, size}
use homa.Receiver.Reading.{Carries, get_lem}
use homa.Receiver.Messages.{get, copy}
use homa.Receiver.Schedule.{schedule}
use homa.Receiver.Handlers.{account}
use homa.Receiver.Grants.{granted_info}
use homa.Receiver.Expiry.{missing_ranges, check_resend_timeouts}
use homa.Receiver.Ranges.{indexes, hits, IsCounted, released_ranges_lem, missing_ranges_lem}
use homa.Receiver.Order.{HasOrder, IsHeld, schedule-HasOrder}
use homa.Receiver.Ordered.{HasPeers, accounts, Change-HasPeers}
use homa.Timeout.{any_elapsed, never}
use homa.Timeout.Due.{is_due}
use homa.Receiver.Expiry.{check_message_timeouts}
use homa.Receiver.Resends.{Exceeds, IsAhead, check_resend_timeouts_lem}
use homa.Receiver.Timeouts.{check_message_timeouts-HasOrder}
use homa.Receiver.Limits.{granted_info_lem}

abbrev pub packet : DriverPacket
packet = record { length = 131; payload = λ _. 0 }

abbrev info : ScheduledMessageInfo
info = record {
  message_length = 500;
  bytes_remaining = 300;
  bytes_granted = 400;
  priority = 1;
  peer = none;
}

abbrev message : Message
message = record {
  id = record { transport_id = 7; sequence = 1 };
  source = record { ip = 9; port = 80 };
  transport_header_length = 31;
  packet_data_length = 100;
  num_expected_packets = 5;
  num_unscheduled_packets = 2;
  scheduled = true;
  start = 0;
  message_length = 500;
  num_packets = 2;
  packets = λ i. if i == 0 then some packet else if i == 2 then some packet else none;
  state = in_progress;
  info = info;
}

message-IsCounted : IsCounted message
unfolding IsCounted hits
message-IsCounted = refl

released_ranges_example :
    indexes (released_ranges message) ≡ hits (is_stored message) max_message_packets 0
    × size (released_ranges message) ≡ message.num_packets
released_ranges_example = released_ranges_lem message message-IsCounted

missing_ranges_example :
    (ranges : List Range) × (missing_ranges message 4 ≡ some ranges)
    × (indexes ranges ≡ hits (λ i. not (is_stored message i)) 4 0)
missing_ranges_example = missing_ranges_lem message 4 (omega arith)

abbrev policy : Scheduled
policy = record {
  max_scheduled_priority = 3;
  degree_overcommitment = 4;
  min_scheduled_bytes = 250;
  max_scheduled_bytes = 500;
}

granted_info_example :
    400 ≤ (granted_info policy 2 info).bytes_granted
    × (granted_info policy 2 info).bytes_granted ≤ 500
    × (500 + 250 ≤ (granted_info policy 2 info).bytes_granted + 300
        ⊎ (granted_info policy 2 info).bytes_granted ≡ 500)
granted_info_example = granted_info_lem policy 2 info (omega arith) (omega arith)

abbrev config : Config
config = record { max_payload_size = 131; hash = λ x. x; rdtsc = λ _. 1000 }

abbrev pub fresh : Receiver
fresh = make_receiver config (HomaPolicy.make_manager 200 7) (λ _. message) 50 20

fresh-HasOrder : HasOrder fresh
unfolding HasOrder make_receiver
fresh-HasOrder ip = tt

scheduled-HasOrder : HasOrder (schedule 4 fresh)
scheduled-HasOrder = schedule-HasOrder 4 fresh fresh-HasOrder

-- Messages 4 and 5 are scheduled.
abbrev held : Receiver
held = record fresh {
  heap = λ _. record message { info = record info { peer = some 9 } };
  peer_table = λ a. if a == 9 then 4 ∷ 5 ∷ [] else [];
  scheduled_peers = 9 ∷ [];
  buckets = λ _. record {
    messages = 4 ∷ 5 ∷ [];
    message_timeouts = record {
      interval = 50;
      next_timeout = 1500;
      list = (record { owner = 5; expiration = 1500 }) ∷ [];
    };
    resend_timeouts = record { interval = 20; next_timeout = never; list = [] };
  };
}

held-IsHeld : IsHeld 5 held
unfolding IsHeld
held-IsHeld a = ground arith

held-HasOrder : HasOrder held
unfolding HasOrder
held-HasOrder a = elim (Bool-cases (a == 9)) [
  | inl e ↦ rw e ((omega arith, tt), (tt, tt))
  | inr e ↦ rw e tt
]

held-HasPeers : HasPeers held
unfolding HasPeers
held-HasPeers = record { sorted = ground arith; listed = λ a. ground arith }

Change-HasPeers_example : HasOrder (account 5 packet held) × HasPeers (account 5 packet held)
Change-HasPeers_example =
    Change-HasPeers (accounts 5 packet (omega arith) held-IsHeld) held-HasOrder held-HasPeers

check_message_timeouts-HasOrder_example :
    (s' : Receiver) × (check_message_timeouts 2000 5 held ≡ some s')
    × HasOrder s'
    × (any_elapsed 2000 (held.buckets 5).message_timeouts ≡ true
        → is_due 2000 (s'.buckets 5).message_timeouts ≡ false)
check_message_timeouts-HasOrder_example = check_message_timeouts-HasOrder 2000 5 held held-HasOrder

-- Message 4 waits for packets, and its resend timeout, which was set at the first reading of the clock, has
-- elapsed.
abbrev waiting : Receiver
waiting = record held {
  config = record config { rdtsc = λ i. if i == 0 then 985 else 1011 };
  reads = 1;
  buckets = λ b. record (held.buckets b) {
    resend_timeouts = record {
      interval = 20;
      next_timeout = 1005;
      list = (record { owner = 4; expiration = 1005 }) ∷ [];
    };
  };
}

waiting-IsAhead : IsAhead 1010 5 waiting
unfolding make_receiver
waiting-IsAhead i le = ground arith

check_resend_timeouts_example :
    ((s' : Receiver) × (check_resend_timeouts 1010 5 waiting ≡ some s')
      × (s'.heap ≡ waiting.heap)
      × (any_elapsed 1010 (waiting.buckets 5).resend_timeouts ≡ true
          → is_due 1010 (s'.buckets 5).resend_timeouts ≡ false))
    ⊎ ((check_resend_timeouts 1010 5 waiting ≡ none) × (p : ℕ) × Exceeds p waiting)
check_resend_timeouts_example = check_resend_timeouts_lem 1010 5 waiting waiting-IsAhead

-- All packets of a message have come, and 30 bytes of it are stripped.
abbrev full : Message
full = record message { packets = λ i. some packet; start = 30 }

full-Carries : Carries (λ _. 0) full
full-Carries = record {
  positive = omega arith;
  limit = omega arith;
  all_stored = λ i inside. (packet, record { stored = refl; carried = λ o here within. refl });
}

get_example :
    get 10 50 full
    ≡ some (copy (λ _. 0) (10 + full.start) (min 50 (full.message_length - (10 + full.start))))
get_example = get_lem (λ _. 0) full full-Carries 10 50
