-- ===== src/Sender/Tests.antt =====
-- The sender's theorems at a message of three packets, of which two may be sent without a grant.
use homa.Base.{
  ◌+◌, ◌*◌, ◌^◌, ◌≤◌, ◌<◌, ◌⊎◌, ◌≡◌, refl, true, false, some, List, [], ◌∷◌, arith, ◌==◌,
  if◌then◌else◌, by_address,
}
use homa.Protocol.{
  id_eq, bucket_index, hash_id, MessageId, GrantHeader, grant_packet, unknown_packet,
}
use homa.Timeout.{never, any_elapsed}
use homa.Policy as HomaPolicy
use homa.Sender.Buffer.{Buffer, empty, append, accepted}
use homa.Sender.Appending.{IsWhole, Appended, append-Appended, append-IsWhole, empty-IsWhole}
use homa.Sender.Metadata.{fill_headers, Headed, fill_headers_lem}
use homa.Sender.{
  not_started, in_progress, is_in_progress, Options, SocketAddress, DataPacket, Message, Config,
  Sender, make_sender, find_message, find_in, num_packets, set_timeouts,
}
use homa.Sender.Messages.{send_message, start_sending, enqueue, prepare, write_headers, reset_info}
use homa.Sender.Transmit.{send_granted, rounds, send_packet}
use homa.Sender.Expiry.{check_message_timeouts, check_ping_timeouts}
use homa.Sender.Queue.{IsValid, IsSized, IsQueued, is_active}
use homa.Sender.Srpt.{send_packet-IsValid}
use homa.Sender.Sending.{send_message-IsValid}
use homa.Sender.Progress.{send_granted_lem}
use homa.Sender.Running.{Sent}
use homa.Sender.Limits.{grant_packet_lem}
use homa.Sender.Packets.{handle_packet, handle_packet-IsValid}
use homa.Sender.States.{expected, handle_packet_lem}
use homa.Timeout.Due.{is_due}
use homa.Sender.Timeouts.{check_message_timeouts_lem}
use homa.Sender.Pings.{IsAhead, check_ping_timeouts_lem}

abbrev config : Config
config = record {
  transport_id = 7;
  packet_data_length = 100;
  driver_queued_byte_limit = 1000;
  hash = λ x. x;
  rdtsc = λ _. 1000;
}

abbrev pub packet : DataPacket
packet = record {
  header = record {
    sport = 0;
    dport = 0;
    id = record { transport_id = 0; sequence = 0 };
    total_length = 0;
    policy_version = 0;
    unscheduled_index_limit = 0;
    index = 0;
  };
  length = 131;
}

abbrev pub message : Message
message = record {
  id = record { transport_id = 0; sequence = 0 };
  source_port = 5;
  destination = record { ip = 0; port = 0 };
  options = record { no_retry = false; no_keep_alive = false };
  held = true;
  message_length = 300;
  packets = packet ∷ packet ∷ packet ∷ [];
  state = not_started;
  info = record {
    id = record { transport_id = 0; sequence = 0 };
    destination = record { ip = 0; port = 0 };
    unsent_bytes = 0;
    packets_granted = 0;
    priority = 0;
    packets_sent = 0;
  };
}

abbrev pub destination : SocketAddress
destination = record { ip = 9; port = 80 }

abbrev pub no_options : Options
no_options = record { no_retry = false; no_keep_alive = false }

-- A driver of 200 Mbps with eight priorities: 200 bytes go out without a grant.
abbrev pub fresh : Sender
fresh = make_sender config (HomaPolicy.make_manager 200 7) (λ _. message) 50 20

pub fresh-IsValid : IsValid fresh
unfolding make_sender
fresh-IsValid = record {
  ordered = record { members = λ _. refl; info = λ _ e. cc; sorted = tt };
  sized = λ _ e. cc;
}

pub fresh_idle : is_in_progress (fresh.heap 0).state ≡ false
unfolding make_sender
fresh_idle = refl

pub fresh-IsSized : IsSized (fresh.heap 0)
unfolding make_sender
fresh-IsSized = record { total = refl; some_packet = omega arith }

abbrev pub queued : Sender
queued = send_message 0 destination no_options fresh

abbrev pub id : MessageId
id = record { transport_id = 7; sequence = 1 }

abbrev all_granted : GrantHeader
all_granted = record { id = id; byte_limit = 300; priority = 2 }

send_message-IsValid_example : IsValid queued
send_message-IsValid_example =
    send_message-IsValid 0 destination no_options fresh fresh-IsValid fresh_idle fresh-IsSized

pub queued-IsValid : IsValid queued
queued-IsValid =
    send_message-IsValid 0 destination no_options fresh fresh-IsValid fresh_idle fresh-IsSized

handle_packet-IsValid_example : IsValid (handle_packet (grant_packet all_granted) queued)
handle_packet-IsValid_example =
    handle_packet-IsValid (grant_packet all_granted) queued queued-IsValid

queued_found : find_message queued id ≡ some 0
unfolding find_message find_in id_eq bucket_index hash_id send_message start_sending enqueue prepare
    write_headers reset_info set_timeouts make_sender
queued_found = refl

queued_active : is_in_progress (queued.heap 0).state ≡ true
unfolding send_message start_sending enqueue prepare write_headers reset_info set_timeouts
    make_sender
queued_active = refl

queued_size : 0 < queued.config.packet_data_length
unfolding send_message start_sending enqueue prepare write_headers set_timeouts make_sender
queued_size = omega arith

queued_fits : 300 + queued.config.packet_data_length ≤ 2 ^ 32
unfolding send_message start_sending enqueue prepare write_headers set_timeouts make_sender
queued_fits = omega arith

grant_packet_example :
    let k = ((handle_packet (grant_packet all_granted) queued).heap 0).info.packets_granted in
    let size = queued.config.packet_data_length in
    (queued.heap 0).info.packets_granted ≤ k
    × (300 ≤ k * size ⊎ num_packets (queued.heap 0) ≤ k)
    × (k ≡ (queued.heap 0).info.packets_granted
        ⊎ k ≤ num_packets (queued.heap 0) × k * size < 300 + size)
grant_packet_example =
    grant_packet_lem all_granted 0 queued queued_found queued_active queued_size queued_fits

handle_packet_example :
    ((handle_packet (unknown_packet id) queued).heap 0).state
    ≡ expected (unknown_packet id) queued 0
handle_packet_example = handle_packet_lem (unknown_packet id) queued 0

send_granted_example :
    (queued.send_ready ≡ true
      → (r : List MessageId × Sender) × (send_granted (rounds queued) 0 queued ≡ some r) × Sent r.1)
    × (queued.send_ready ≡ false → send_granted (rounds queued) 0 queued ≡ some ([], queued))
send_granted_example = send_granted_lem 0 queued queued-IsValid

check_message_timeouts_example :
    (s' : Sender) × (check_message_timeouts 2000 5 queued ≡ some s')
    × IsValid s'
    × (any_elapsed 2000 (queued.buckets 5).message_timeouts ≡ true
        → is_due 2000 (s'.buckets 5).message_timeouts ≡ false)
check_message_timeouts_example = check_message_timeouts_lem 2000 5 queued queued-IsValid

-- Two timeouts of one bucket, set at the first two readings of the clock, have elapsed.
abbrev late : Sender
late = record fresh {
  config = record config { rdtsc = λ i. if i == 0 then 985 else if i == 1 then 986 else 1011 };
  reads = 2;
  buckets = λ _. record {
    messages = [];
    message_timeouts = record { interval = 50; next_timeout = never; list = [] };
    ping_timeouts = record {
      interval = 20;
      next_timeout = 1005;
      list =
          (record { owner = 0; expiration = 1005 })
          ∷ (record { owner = 1; expiration = 1006 })
          ∷ [];
    };
  };
}

late-IsAhead : IsAhead 1010 5 late
unfolding make_sender
late-IsAhead i le = ground arith

check_ping_timeouts_example :
    (s' : Sender) × (check_ping_timeouts 1010 5 late ≡ some s')
    × IsValid s'
    × (any_elapsed 1010 (late.buckets 5).ping_timeouts ≡ true
        → is_due 1010 (s'.buckets 5).ping_timeouts ≡ false)
check_ping_timeouts_example = check_ping_timeouts_lem 1010 5 late fresh-IsValid late-IsAhead

abbrev started : Message
started = record message {
  state = in_progress;
  info = record {
    id = id;
    destination = destination;
    unsent_bytes = 300;
    packets_granted = 2;
    priority = 3;
    packets_sent = 0;
  };
}

abbrev running : Sender
running = record fresh { heap = λ q. if q == 0 then started else message; send_queue = 0 ∷ [] }

running-IsValid : IsValid running
running-IsValid = record {
  ordered = record {
    members = λ p. ground arith;
    info = λ p.
        by_address
          (λ r.
            is_in_progress (if r == 0 then started else message).state ≡ true
            → IsQueued (if r == 0 then started else message))
          0 p
          (λ _. record {
            sent_le = omega arith;
            granted_le = omega arith;
            several = omega arith;
            unsent = refl;
          })
          (λ e. rw e (λ absurdity. cc));
    sorted = (tt, tt);
  };
  sized = λ p.
      by_address
        (λ r.
          is_active (if r == 0 then started else message).state ≡ true
          → IsSized (if r == 0 then started else message))
        0 p (λ _. record { total = refl; some_packet = omega arith }) (λ e. rw e (λ absurdity. cc));
}

send_packet-IsValid_example : IsValid (send_packet 0 packet running)
send_packet-IsValid_example =
    send_packet-IsValid 0 packet running running-IsValid refl (omega arith) refl

-- Two packets of ten bytes, the second half full, to which more is appended.
abbrev buffer : Buffer
buffer = append (λ _ _. 0) (λ i. i) 15 (empty 10)

buffer-IsWhole : IsWhole buffer
buffer-IsWhole = append-IsWhole (λ _ _. 0) (λ i. i) 15 (empty 10) (empty-IsWhole 10 (omega arith))

append-Appended_example :
    Appended
      (λ i. i + 15)
      buffer.packet_data_length
      0
      buffer.message_length
      (accepted 9 buffer)
      buffer
      (append (λ _ _. 0) (λ i. i + 15) 9 buffer)
append-Appended_example = append-Appended (λ _ _. 0) (λ i. i + 15) 9 buffer buffer-IsWhole

fill_headers_example :
    (b' : Buffer) × (fill_headers packet.header buffer ≡ some (b', buffer.message_length))
    × Headed
        (record (packet.header) { total_length = buffer.message_length })
        buffer.num_packets
        0
        buffer
        b'
fill_headers_example = fill_headers_lem packet.header buffer buffer-IsWhole
