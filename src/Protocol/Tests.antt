-- ===== src/Protocol/Tests.antt =====
-- The order of identifiers at three messages of two transports, and the header of a GRANT.
use homa.Base.{ℕ, ◌≤◌, some, arith, ◌≡◌}
use homa.Protocol.{MessageId}
use homa.Protocol.{Packet, grant_packet}
use homa.Protocol.Wire.{read_header, write_header, header_size}
use homa.Protocol.RoundTrip.{read_header-write_header}

abbrev a : MessageId
a = record { transport_id = 1; sequence = 9 }

abbrev b : MessageId
b = record { transport_id = 2; sequence = 3 }

abbrev c : MessageId
c = record { transport_id = 2; sequence = 4 }

abbrev sample : Packet
sample = grant_packet (record { id = a; byte_limit = 70000; priority = 3 })

read_header-write_header_example :
    (read_header (write_header sample (λ i. i)) ≡ some sample)
    × ((i : ℕ) → header_size sample ≤ i → write_header sample (λ i. i) i ≡ i)
read_header-write_header_example = read_header-write_header sample (λ i. i) (omega arith)
