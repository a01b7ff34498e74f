-- ===== src/Dpdk/Holding.antt =====
-- The driver counts the mbufs that its packets hold, and leaves DPDK the reserved ones.
use homa.Base.{
  ℕ, ◌+◌, ◌^◌, ◌≤◌, ◌<◌, ◌≡◌, refl, ap, ◌∙◌, inl, inr, Bool, true, false, Option, none, some, List,
  [], ◌∷◌, arith, ltb, ◌==◌, ==_iff, ==_refl, if◌then◌else◌, maybe, Bool-cases, Option-cases,
  length,
}
use homa.Intrusive.{remove, contains}
use homa.Intrusive.Members.{occurrences}
use homa.Intrusive.Sums.{total, total-congr}
use homa.ObjectPool.{ObjectPool, construct}
use homa.ObjectPool.Laws.{IsValid, IsFresh, construct-Constructed, destroy-IsValid}
use homa.Dpdk.Receiving.{Accepted, accept, make_received, receive_mbuf}
use homa.Dpdk.{
  packet_hdr_len, max_payload_size, mbuf_alloc_limit, pktmbuf_free, set_mbuf, alloc_mbuf,
  release_buffer, BufRef, mbuf, overflow_buf, is_mbuf, Packet, Driver, call, set_packet,
  construct_object, hold_mbuf, hold_overflow, alloc_packet, release_packet,
}

-- How many mbufs a buffer is.
abbrev pub mbufs_in : BufRef → ℕ
mbufs_in b = if is_mbuf b then 1 else 0

-- `live` are the packets that the application holds: their memory is the pool's, the mbufs among their
-- buffers are counted, and there are no more of them than the limit.
pub record IsHeld (live : List ℕ) (d : Driver) : Type 0 where
  pub pooled : IsValid live d.packet_pool
  pub counted : total (λ p. mbufs_in (d.packets p).buffer) live ≡ d.mbufs_outstanding
  pub limited : d.mbufs_outstanding ≤ mbuf_alloc_limit

-- What is written to a packet that is not in a list does not matter to the list.
total-apart :
    (p : ℕ) (packet : Packet) (d : Driver) (live : List ℕ)
    → occurrences p live ≡ 0
    → total (λ q. mbufs_in ((set_packet p packet d).packets q).buffer) live
      ≡ total (λ q. mbufs_in (d.packets q).buffer) live
total-apart p packet d [] e = refl
total-apart p packet d (q ∷ live) e = elim (Bool-cases (q == p)) [
  | inl same ↦ absurd (ground arith)
  | inr other ↦
      rw other
        (ap (λ n. mbufs_in (d.packets q).buffer + n) (total-apart p packet d live (rw other at e)))
]

-- `construct` gives the pool's object, as the constructor does not throw.
construct_object_lem :
    (fresh : ℕ) (live : List ℕ) (pool : ObjectPool)
    → IsValid live pool
    → IsFresh fresh live pool
    → length live + 1 < 2 ^ 64
    → let (p, pool') = construct_object fresh pool in
      IsValid (p ∷ live) pool' × (occurrences p live ≡ 0)
unfolding construct_object construct
construct_object_lem fresh live pool v f h =
    let k = construct-Constructed fresh false live pool.pool pool.outstanding_objects v f h in
    (k.valid, k.apart)

module _ (live : List ℕ) (d : Driver) (held : IsHeld live d) (few : length live + 1 < 2 ^ 64)
    (fresh : ℕ) (unused : IsFresh fresh live d.packet_pool) where
  hold_mbuf-IsHeld :
      (m payload : ℕ)
      → d.mbufs_outstanding < mbuf_alloc_limit
      → let (p, d') = hold_mbuf m fresh payload d in IsHeld (p ∷ live) d'
  unfolding hold_mbuf
  hold_mbuf-IsHeld m payload room =
      let p = (construct_object fresh d.packet_pool).0 in
      let (v, apart) = construct_object_lem fresh live d.packet_pool held.pooled unused few in
      record {
        pooled = v;
        counted = rw (==_refl p) (
            omega (
              arith,
              total-apart p (record { payload = payload; length = 0; buffer = mbuf m }) d live
                  apart,
              held.counted,
            ));
        limited = omega arith;
      }

  hold_overflow-IsHeld :
      (fresh_buffer : ℕ) → let (p, d') = hold_overflow fresh_buffer fresh d in IsHeld (p ∷ live) d'
  unfolding hold_overflow
  hold_overflow-IsHeld fresh_buffer =
      let p = (construct_object fresh d.packet_pool).0 in
      let o = (construct_object fresh_buffer d.overflow_pool).0 in
      let (v, apart) = construct_object_lem fresh live d.packet_pool held.pooled unused few in
      record {
        pooled = v;
        counted = rw (==_refl p) (
            omega (
              arith,
              total-apart p (record { payload = 0; length = 0; buffer = overflow_buf o }) d live
                  apart,
              held.counted,
            ));
        limited = held.limited;
      }

alloc_mbuf-IsHeld :
    (live : List ℕ) (d : Driver) (alloc : Option ℕ) (append : Bool) (fresh_buffer fresh : ℕ)
    → IsHeld live d
    → length live + 1 < 2 ^ 64
    → IsFresh fresh live d.packet_pool
    → d.mbufs_outstanding < mbuf_alloc_limit
    → let (p, d') = alloc_mbuf alloc append fresh_buffer fresh d in IsHeld (p ∷ live) d'
unfolding alloc_mbuf call
alloc_mbuf-IsHeld live d none append fresh_buffer fresh held few unused lt =
    hold_overflow-IsHeld live d held few fresh unused fresh_buffer
alloc_mbuf-IsHeld live d (some m) true fresh_buffer fresh held few unused lt =
    hold_mbuf-IsHeld live
      (set_mbuf m (record (d.mbufs m) { pkt_len = packet_hdr_len + max_payload_size }) d)
      (record { pooled = held.pooled; counted = held.counted; limited = held.limited }) few fresh
      unused m packet_hdr_len lt
alloc_mbuf-IsHeld live d (some m) false fresh_buffer fresh held few unused lt =
    hold_overflow-IsHeld live (record d { calls = pktmbuf_free m ∷ d.calls })
      (record { pooled = held.pooled; counted = held.counted; limited = held.limited }) few fresh
      unused fresh_buffer

pub alloc_packet-IsHeld :
    (live : List ℕ) (d : Driver) (alloc : Option ℕ) (append : Bool) (fresh_buffer fresh : ℕ)
    → IsHeld live d
    → length live + 1 < 2 ^ 64
    → IsFresh fresh live d.packet_pool
    → let (p, d') = alloc_packet alloc append fresh_buffer fresh d in IsHeld (p ∷ live) d'
unfolding alloc_packet
alloc_packet-IsHeld live d alloc append fresh_buffer fresh held few unused =
    elim (Bool-cases (ltb d.mbufs_outstanding mbuf_alloc_limit)) [
      | inr full ↦ rw full (hold_overflow-IsHeld live d held few fresh unused fresh_buffer)
      | inl room ↦
          rw room (
            alloc_mbuf-IsHeld live d alloc append fresh_buffer fresh held few unused (ground arith))
    ]

total-out :
    (g : ℕ → ℕ) (n : ℕ) (xs : List ℕ)
    → contains n xs ≡ true
    → g n + total g (remove n xs) ≡ total g xs
total-out g n [] c = cc
total-out g n (x ∷ xs) c = elim (Bool-cases (x == n)) [
  | inl e ↦ rw e (rw ((==_iff x n).0 e) refl)
  | inr e ↦ rw e (omega (arith, total-out g n xs (rw e at c)))
]

release_buffer-IsHeld :
    (live : List ℕ) (d : Driver) (p : ℕ) (b : BufRef)
    → (d.packets p).buffer ≡ b
    → IsHeld live d
    → contains p live ≡ true
    → IsHeld (remove p live) (release_buffer p b d)
unfolding release_buffer call
release_buffer-IsHeld live d p (mbuf m) e held c =
    let w = destroy-IsValid p live d.packet_pool held.pooled c in
    record {
      pooled = w.0;
      counted = omega (
        arith,
        total-out (λ q. mbufs_in (d.packets q).buffer) p live c,
        ap mbufs_in e,
        held.counted,
      );
      limited = omega (arith, held.limited);
    }
release_buffer-IsHeld live d p (overflow_buf o) e held c =
    let w = destroy-IsValid p live d.packet_pool held.pooled c in
    record {
      pooled = w.0;
      counted = omega (
        arith,
        total-out (λ q. mbufs_in (d.packets q).buffer) p live c,
        ap mbufs_in e,
        held.counted,
      );
      limited = held.limited;
    }

pub release_packet-IsHeld :
    (live : List ℕ) (d : Driver) (p : ℕ)
    → IsHeld live d
    → contains p live ≡ true
    → IsHeld (remove p live) (release_packet p d)
unfolding release_packet
release_packet-IsHeld live d p = release_buffer-IsHeld live d p (d.packets p).buffer refl

make_received-IsHeld :
    (live : List ℕ) (d : Driver) (fresh_buffer fresh m : ℕ) (a : Accepted)
    → IsHeld live d
    → length live + 1 < 2 ^ 64
    → IsFresh fresh live d.packet_pool
    → let (p, d') = make_received fresh_buffer fresh m a d in IsHeld (p ∷ live) d'
unfolding make_received
make_received-IsHeld live d fresh_buffer fresh m a held few unused =
    elim (Bool-cases (ltb d.mbufs_outstanding mbuf_alloc_limit)) [
      | inl room ↦
          rw room (hold_mbuf-IsHeld live d held few fresh unused m a.payload (ground arith))
      | inr full ↦
          let h = hold_overflow-IsHeld live d held few fresh unused fresh_buffer in
          rw full (record { pooled = h.pooled; counted = h.counted; limited = h.limited })
    ]

-- The length of a packet does not matter.
pub set_length-IsHeld :
    (live : List ℕ) (d : Driver) (p length : ℕ)
    → IsHeld live d
    → IsHeld live (set_packet p (record (d.packets p) { length = length }) d)
set_length-IsHeld live d p length held = record {
  pooled = held.pooled;
  counted =
      total-congr (λ q. mbufs_in (d.packets q).buffer)
        (λ q.
          mbufs_in ((set_packet p (record (d.packets p) { length = length }) d).packets q).buffer)
        (λ q. elim (Bool-cases (q == p)) [
          | inl e ↦ rw e (rw ((==_iff q p).0 e) refl)
          | inr e ↦ rw e refl
        ])
        live
      ∙ held.counted;
  limited = held.limited;
}

pub receive_mbuf-IsHeld :
    (live : List ℕ) (d : Driver) (fresh_buffer fresh m : ℕ)
    → IsHeld live d
    → length live + 1 < 2 ^ 64
    → IsFresh fresh live d.packet_pool
    → let (received, d') = receive_mbuf fresh_buffer fresh m d in
      IsHeld (maybe live (λ r. r.0 ∷ live) received) d'
unfolding receive_mbuf call
receive_mbuf-IsHeld live d fresh_buffer fresh m held few unused =
    elim (Option-cases (accept d.has_hardware_filter (d.mbufs m))) [
      | inl e ↦
          rw (e, receive_mbuf)
            (record { pooled = held.pooled; counted = held.counted; limited = held.limited })
      | inr (a, e) ↦
          rw (e, receive_mbuf)
            (set_length-IsHeld _ _ _ a.length
              (make_received-IsHeld live d fresh_buffer fresh m a held few unused))
    ]
