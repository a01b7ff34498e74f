-- ===== src/Sender/Filling.antt =====
-- src/Sender.cc: the packets that hold the bytes of an outgoing message, and one round of `append`.
use homa.Base.{
  ℕ, suc, ◌+◌, ◌-◌, ◌*◌, ◌≤◌, ◌<◌, min, ◌≡◌, refl, sym, ap, ◌∙◌, subst, inl, inr, true, false, none,
  some, arith, ltb, leb, ◌==◌, if◌then◌else◌, ==_iff, ==_refl, maybe, Bool-cases,
}
use homa.Protocol.{data_header_size}
use homa.Protocol.Wire.{Payload}
use homa.Sender.Buffer.{OutPacket, Buffer, memcpy, get_or_alloc_packet, set_packet, append_round}

-- The packets of a buffer hold so many bytes: they stand at the first indexes, as many as are counted,
-- the length of each counts its bytes with the header, and only the last one may not be full.
pub record IsFilled (filled : ℕ) (b : Buffer) : Type 0 where
  pub present :
      (i : ℕ)
      → i < b.num_packets
      → (p : OutPacket) × (b.packets i ≡ some p)
        × (p.length
            ≡ data_header_size + min b.packet_data_length (filled - i * b.packet_data_length))
  pub absent : (i : ℕ) → b.num_packets ≤ i → b.packets i ≡ none
  pub covers : filled ≤ b.num_packets * b.packet_data_length
  pub tight : b.num_packets * b.packet_data_length < filled + b.packet_data_length

-- The byte at an offset of the data of a packet, where there is one.
abbrev pub byte_at : Buffer → (index offset : ℕ) → ℕ
byte_at b index offset = maybe 0 (λ p. p.payload (offset + data_header_size)) (b.packets index)

pub row : (i j d : ℕ) → i < j → i * d + d ≤ j * d
row i j d h = grind arith

-- How many packets hold the bytes up to an offset of the packet at an index.
count_at :
    (num index offset d : ℕ)
    → offset < d
    → index * d + offset ≤ num * d
    → num * d < index * d + offset + d
    → num ≡ (if offset == 0 then index else suc index)
count_at num index offset d lt le tight =
    ground (arith, row num index d, row index num d, row (suc index) num d)

-- A round that fits the packet that holds the first free byte fills it further.
module _ (memory : ℕ → Payload) (source : ℕ → ℕ) (n copied index offset : ℕ) (b : Buffer)
    (room : offset + n ≤ b.packet_data_length) (here : offset < b.packet_data_length)
    (some_byte : 0 < n) (filled : IsFilled (index * b.packet_data_length + offset) b) where
  abbrev pub after : Buffer
  after = append_round memory source n copied index offset b

  num_packets_before : b.num_packets ≡ (if offset == 0 then index else suc index)
  num_packets_before =
      count_at b.num_packets index offset b.packet_data_length here filled.covers filled.tight

  num_packets_after : after.num_packets ≡ suc index
  unfolding append_round set_packet
  num_packets_after = elim (Bool-cases (offset == 0)) [
    | inl e ↦
        rw (filled.absent index (ground (arith, num_packets_before, e)))
          (ground (arith, num_packets_before, e))
    | inr e ↦
        let (p, q, l) = filled.present index (ground (arith, num_packets_before, e)) in
        rw q (ground (arith, num_packets_before, e))
  ]

  length_before : (get_or_alloc_packet memory index b).length ≡ data_header_size + offset
  unfolding get_or_alloc_packet
  length_before = elim (Bool-cases (offset == 0)) [
    | inl e ↦ rw (filled.absent index (ground (arith, num_packets_before, e))) (ground (arith, e))
    | inr e ↦
        let (p, q, l) = filled.present index (ground (arith, num_packets_before, e)) in
        rw q (omega (arith, l))
  ]

  pub round-IsFilled : IsFilled (index * b.packet_data_length + (offset + n)) after
  unfolding append_round set_packet
  round-IsFilled = record {
    present = λ i h. elim (Bool-cases (i == index)) [
      | inl e ↦ rw e (_, refl, ground (arith, length_before, e))
      | inr e ↦
          let before : i < index = ground (arith, num_packets_after, e) in
          let (p, q, l) = filled.present i (ground (arith, num_packets_before)) in
          rw e (p, q, omega (arith, l, row i index b.packet_data_length before))
    ];
    absent = λ i h.
        let away : (i == index) ≡ false = ground (arith, num_packets_after) in
        rw away (filled.absent i (ground (arith, num_packets_before, num_packets_after)));
    covers =
        subst (λ k. index * b.packet_data_length + (offset + n) ≤ k * b.packet_data_length)
          (sym num_packets_after) (grind arith);
    tight =
        subst
          (λ k.
            k * b.packet_data_length
            < index * b.packet_data_length + (offset + n) + b.packet_data_length)
          (sym num_packets_after) (grind arith);
  }

  -- The bytes of the round are those of the source, and those before it stay.
  new_byte :
      (o : ℕ) → offset ≤ o → o < offset + n → byte_at after index o ≡ source (copied + (o - offset))
  unfolding append_round set_packet memcpy
  new_byte o low high =
      let e : leb (offset + data_header_size) (o + data_header_size) ≡ true = ground arith in
      let e' : ltb (o + data_header_size) (offset + data_header_size + n) ≡ true = ground arith in
      rw ==_refl (rw (e, e') (ap (λ k. source (copied + k)) (omega arith)))

  old_byte_here : (o : ℕ) → o < offset → byte_at after index o ≡ byte_at b index o
  unfolding append_round set_packet get_or_alloc_packet memcpy
  old_byte_here o low =
      let (p, q, l) = filled.present index (ground (arith, num_packets_before)) in
      let e : leb (offset + data_header_size) (o + data_header_size) ≡ false = ground arith in
      rw ==_refl (rw (e, q) refl)

  pub old_byte :
      (i o : ℕ)
      → o < b.packet_data_length
      → i * b.packet_data_length + o < index * b.packet_data_length + offset
      → byte_at after i o ≡ byte_at b i o
  unfolding append_round set_packet
  old_byte i o inside low = elim (Bool-cases (i == index)) [
    | inl e ↦
        let same : i ≡ index = (==_iff i index).0 e in
        subst (λ j. byte_at after j o ≡ byte_at b j o) (sym same)
          (old_byte_here o (omega (arith, ap (λ (k : ℕ). k * b.packet_data_length) same)))
    | inr e ↦ rw (e, byte_at) refl
  ]

  pub after-packet_data_length : after.packet_data_length ≡ b.packet_data_length
  unfolding append_round set_packet
  after-packet_data_length = refl

  pub new_byte_at :
      (i o : ℕ)
      → o < b.packet_data_length
      → index * b.packet_data_length + offset ≤ i * b.packet_data_length + o
      → i * b.packet_data_length + o < index * b.packet_data_length + (offset + n)
      → byte_at after i o
        ≡ source (copied + (i * b.packet_data_length + o - (index * b.packet_data_length + offset)))
  new_byte_at i o inside low high =
      let same : i ≡ index =
        ground (arith, row i index b.packet_data_length, row index i b.packet_data_length) in
      let level = ap (λ (k : ℕ). k * b.packet_data_length) same in
      subst
        (λ j.
          byte_at after j o
          ≡ source
              (copied + (i * b.packet_data_length + o - (index * b.packet_data_length + offset))))
        (sym same)
        (new_byte o (omega (arith, level)) (omega (arith, level))
          ∙ ap (λ k. source (copied + k)) (omega (arith, level)))
