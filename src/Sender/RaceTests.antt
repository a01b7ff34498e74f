-- ===== src/Sender/RaceTests.antt =====
-- A run of several operations, and the race of `Sender.Races`, at a message that is restarted too early.
use homa.Base.{
  ℕ, ◌≡◌, refl, inr, true, false, some, [], ◌∷◌, ◌==◌, if◌then◌else◌, by_address, arith,
}
use homa.Protocol.{GrantHeader, grant_packet, unknown_packet, id_eq}
use homa.Intrusive.{contains}
use homa.Sender.{make_sender, sent, is_in_progress, Message, Sender, find_message, find_in}
use homa.Sender.Transmit.{settle, try_send}
use homa.Sender.Queue.{IsValid, IsSized, IsQueued, is_active}
use homa.Sender.Packets.{handle_packet}
use homa.Sender.Races.{restart_race}
use homa.Sender.Operations.{packet, send, here, next, Run, IsServed, run_lem}
use homa.Sender.Tests.{
  message, destination, no_options, fresh, fresh-IsValid, fresh_idle, fresh-IsSized, queued, id,
}

-- A message of three packets was sent, and then granted in full.
abbrev full_grant : GrantHeader
full_grant = record { id = id; byte_limit = 300; priority = 2 }

abbrev granted_sender : Sender
granted_sender = handle_packet (grant_packet full_grant) queued

granted_run : Run fresh granted_sender
granted_run =
    next (next here (send 0 destination no_options fresh_idle fresh-IsSized))
      (packet (grant_packet full_grant))

fresh-IsServed : IsServed fresh
unfolding make_sender
fresh-IsServed = inr tt

run_lem_example :
    IsValid granted_sender
    × IsServed granted_sender
    × ((queued : ℕ)
        → (u : Sender) × (try_send queued granted_sender ≡ some u) × IsValid u × IsServed u)
run_lem_example = run_lem fresh fresh-IsValid fresh-IsServed granted_run

-- A message that was sent in full and dropped by the application.
abbrev dropped : Message
dropped = record message { id = id; state = sent; held = false }

abbrev settling_soon : Sender
settling_soon = record fresh {
  heap = λ q. if q == 0 then dropped else message;
  buckets = λ b. record (fresh.buckets b) { messages = 0 ∷ [] };
}

settling_soon-IsValid : IsValid settling_soon
unfolding make_sender
settling_soon-IsValid = record {
  ordered = record {
    members = λ q. ground arith;
    info = λ q.
        by_address
          (λ r.
            is_in_progress (if r == 0 then dropped else message).state ≡ true
            → IsQueued (if r == 0 then dropped else message))
          0 q (λ absurdity. cc) (λ e. rw e (λ absurdity. cc));
    sorted = tt;
  };
  sized = λ q.
      by_address
        (λ r.
          is_active (if r == 0 then dropped else message).state ≡ true
          → IsSized (if r == 0 then dropped else message))
        0 q (λ _. record { total = refl; some_packet = omega arith }) (λ e. rw e (λ absurdity. cc));
}

settling_soon_found : find_message settling_soon id ≡ some 0
unfolding find_message find_in id_eq make_sender
settling_soon_found = refl

restart_race_example :
    (let t = settle id (handle_packet (unknown_packet id) settling_soon) in
      (t.allocated 0 ≡ false)
      × (is_in_progress (t.heap 0).state ≡ true)
      × (contains 0 t.send_queue ≡ true))
restart_race_example =
    restart_race id settling_soon 0 settling_soon-IsValid settling_soon_found refl refl refl refl
