-- ===== src/Sender/Limits.antt =====
-- The packets that a GRANT lets the sender send.
use homa.Base.{
  ℕ, ◌+◌, ◌*◌, ◌^◌, ◌≤◌, ◌<◌, min, max, ◌≡◌, refl, inl, inr, ◌⊎◌, true, some, arith, ltb,
  if◌then◌else◌, ==_refl, Bool-cases,
}
use homa.Protocol.{GrantHeader, grant_packet}
use homa.Sender.{
  Config, Sender, num_packets, is_in_progress, set_timeouts, find_message, bucket_of,
  release_packet,
}
use homa.Sender.Packets.{handle_packet}
use homa.Sender.Handlers.{incoming_grant_index, grant, granted, handle_grant_packet}

-- The packets that a GRANT allows are the fewest that cover its bytes: they hold all of them, and one
-- packet less would not, as long as 32 bits hold the sum. A packet holds at least one byte.
incoming_grant_index_lem :
    (c : Config) (byte_limit : ℕ)
    → 0 < c.packet_data_length
    → byte_limit + c.packet_data_length ≤ 2 ^ 32
    → byte_limit ≤ incoming_grant_index c byte_limit * c.packet_data_length
      × incoming_grant_index c byte_limit * c.packet_data_length < byte_limit + c.packet_data_length
unfolding incoming_grant_index
incoming_grant_index_lem c byte_limit pos fits = grind arith

granted_most :
    (p limit priority : ℕ) (s : Sender)
    → ((grant p limit priority s).heap p).info.packets_granted
      ≡ max (s.heap p).info.packets_granted limit
unfolding grant
granted_most p limit priority s = elim (Bool-cases (ltb (s.heap p).info.packets_granted limit)) [
  | inl l ↦ rw l (rw ==_refl (ground arith))
  | inr l ↦ rw l (ground arith)
]

-- A GRANT for a message in progress never lowers the packets granted, never grants more packets than
-- the message has unless they were granted before, and grants all that it names up to that number;
-- for a message in any other state it grants nothing.
granted_lem :
    (b p : ℕ) (h : GrantHeader) (s : Sender)
    → (let m = s.heap p in
        ((granted b p h s).heap p).info.packets_granted ≡ (
          if is_in_progress m.state
          then max m.info.packets_granted
              (min (incoming_grant_index s.config h.byte_limit) (num_packets m))
          else m.info.packets_granted))
unfolding granted grant set_timeouts
granted_lem b p h s = elim (Bool-cases (is_in_progress (s.heap p).state)) [
  | inl e ↦ rw e (granted_most p _ h.priority (set_timeouts b p s))
  | inr e ↦ rw e refl
]

mul_mono : (a b k : ℕ) → a ≤ b → a * k ≤ b * k
mul_mono a b k h = grind arith

-- The larger of what was granted and what a limit of `g` packets lets be granted.
most_lem :
    (old g num size bytes : ℕ)
    → bytes ≤ g * size
    → g * size < bytes + size
    → let k = max old (min g num) in
      old ≤ k × (bytes ≤ k * size ⊎ num ≤ k) × (k ≡ old ⊎ k ≤ num × k * size < bytes + size)
most_lem old g num size bytes covers few =
    ground (arith, mul_mono g old size, mul_mono num g size, mul_mono g num size)

-- After a GRANT for a message in progress, no fewer packets of it are granted than before; the granted
-- packets cover the bytes that the GRANT names, or are at least all of the message; and if they are more
-- than before, they are no more than the message has, and the fewest that cover the bytes. A packet
-- holds at least one byte, and 32 bits hold the bytes and those of one packet more.
pub grant_packet_lem :
    (h : GrantHeader) (p : ℕ) (s : Sender)
    → find_message s h.id ≡ some p
    → is_in_progress (s.heap p).state ≡ true
    → 0 < s.config.packet_data_length
    → h.byte_limit + s.config.packet_data_length ≤ 2 ^ 32
    → let m = s.heap p in
      let k = ((handle_packet (grant_packet h) s).heap p).info.packets_granted in
      let size = s.config.packet_data_length in
      m.info.packets_granted ≤ k
      × (h.byte_limit ≤ k * size ⊎ num_packets m ≤ k)
      × (k ≡ m.info.packets_granted ⊎ k ≤ num_packets m × k * size < h.byte_limit + size)
unfolding handle_packet handle_grant_packet release_packet
grant_packet_lem h p s found active pos fits =
    let (covers, few) = incoming_grant_index_lem s.config h.byte_limit pos fits in
    rw found (
      rw (granted_lem (bucket_of s h.id) p h s) (
        rw active (
          most_lem (s.heap p).info.packets_granted (incoming_grant_index s.config h.byte_limit)
            (num_packets (s.heap p)) s.config.packet_data_length h.byte_limit covers few)))
