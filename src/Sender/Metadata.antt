-- ===== src/Sender/Metadata.antt =====
-- src/Sender.cc: the loop of `sendMessage` that writes the header of every packet, and its sanity check.
use homa.Base.{
  ℕ, zero, suc, ◌+◌, ◌-◌, ◌*◌, ◌≤◌, ◌<◌, min, ◌≡◌, refl, sym, ap, ◌∙◌, subst, ◌⊎◌, inl, inr, false,
  Option, none, some, arith, ◌==◌, ==_iff, ==_refl, maybe, Bool-cases,
}
use homa.Protocol.{DataHeader, data_packet, data_header_size}
use homa.Protocol.Wire.{write_header}
use homa.Sender.Buffer.{OutPacket, Buffer, set_packet}
use homa.Sender.Appending.{IsWhole}

-- A packet with the header of its index: `h` has the fields that are the same in every header.
unfoldable pub headed : DataHeader → ℕ → OutPacket → OutPacket
headed h i packet = record packet {
  payload = write_header (data_packet (record h { index = i })) packet.payload;
}

-- The loop: `none` is the PANIC on a missing packet, and `actual` counts the bytes of data.
unfoldable pub fill_loop : DataHeader → (n i actual : ℕ) → Buffer → Option (Buffer × ℕ)
fill_loop h zero i actual b = some (b, actual)
fill_loop h (suc n) i actual b =
    maybe none
      (λ packet.
        fill_loop h n (i + 1) (actual + (packet.length - data_header_size))
          (set_packet i (headed h i packet) b))
      (b.packets i)

-- All the headers of a message, with its length in each.
unfoldable pub fill_headers : DataHeader → Buffer → Option (Buffer × ℕ)
fill_headers h b = fill_loop (record h { total_length = b.message_length }) b.num_packets 0 0 b

-- What the loop leaves, of a buffer and of the packets from `i` on: they have headers.
pub record Headed (h : DataHeader) (n i : ℕ) (b b' : Buffer) : Type 0 where
  pub size : b'.packet_data_length ≡ b.packet_data_length
  pub count : b'.num_packets ≡ b.num_packets
  pub message : b'.message_length ≡ b.message_length
  pub start : b'.start ≡ b.start
  pub has_header :
      (j : ℕ) (p : OutPacket)
      → i ≤ j
      → j < i + n
      → b.packets j ≡ some p
      → b'.packets j ≡ some (headed h j p)
  pub others : (j : ℕ) → (j < i) ⊎ (i + n ≤ j) → b'.packets j ≡ b.packets j

-- The packets from `i` on hold so many bytes.
abbrev Holds : (filled n i : ℕ) → Buffer → Type 0
Holds filled n i b =
    (j : ℕ)
    → i ≤ j
    → j < i + n
    → (p : OutPacket) × (b.packets j ≡ some p)
      × (p.length ≡ data_header_size + min b.packet_data_length (filled - j * b.packet_data_length))

module _ (h : DataHeader) (filled : ℕ) where
  Headed-next :
      (n i : ℕ) (p : OutPacket) (b b' : Buffer)
      → b.packets i ≡ some p
      → Headed h n (i + 1) (set_packet i (headed h i p) b) b'
      → Headed h (suc n) i b b'
  unfolding set_packet
  Headed-next n i p b b' here f = record {
    size = f.size;
    count = f.count ∙ rw here refl;
    message = f.message;
    start = f.start;
    has_header = λ j q low high there. elim (Bool-cases (j == i)) [
      | inl e ↦
          let same : j ≡ i = (==_iff j i).0 e in
          let packet : p ≡ q =
            ap (maybe p (λ x. x)) (sym here ∙ subst (λ k. b.packets k ≡ some q) same there) in
          subst (λ k. b'.packets k ≡ some (headed h k q)) (sym same)
            (f.others i (inl (omega arith)) ∙ rw ==_refl (ap (λ r. some (headed h i r)) packet))
      | inr e ↦ f.has_header j q (ground arith) (ground arith) (rw e there)
    ];
    others = λ j apart.
        let away : (j == i) ≡ false = elim apart [ inl a ↦ ground arith | inr a ↦ ground arith ] in
        let past : (j < i + 1) ⊎ (i + 1 + n ≤ j) = elim apart [
          | inl a ↦ inl (omega arith)
          | inr a ↦ inr (omega arith)
        ] in
        f.others j past ∙ rw away refl;
  }

  fill_loop_lem :
      (n i actual : ℕ) (b : Buffer)
      → Holds filled n i b
      → (b' : Buffer) × (fill_loop h n i actual b
          ≡ some (b', actual + min (n * b.packet_data_length) (filled - i * b.packet_data_length)))
        × Headed h n i b b'
  unfolding fill_loop set_packet
  fill_loop_lem zero i actual b holds = (
    b,
    ap (λ k. some (b, k)) (ground arith),
    record {
      size = refl;
      count = refl;
      message = refl;
      start = refl;
      has_header = λ j p low high there. absurd (omega arith);
      others = λ j apart. refl;
    },
  )
  fill_loop_lem (suc n) i actual b holds =
      let (p, here, l) = holds i (omega arith) (omega arith) in
      let (b', e, f) =
        fill_loop_lem n (i + 1) (actual + (p.length - data_header_size))
          (set_packet i (headed h i p) b)
          (λ j low high.
            let away : (j == i) ≡ false = ground arith in
            let (q, there, k) = holds j (omega arith) (omega arith) in (q, rw away there, k)) in
      (
        b',
        ap
              (maybe none (λ packet.
                fill_loop h n (i + 1) (actual + (packet.length - data_header_size))
                  (set_packet i (headed h i packet) b)))
              here
            ∙ e
            ∙ ap (λ k. some (b', k)) (grind (arith, l)),
        Headed-next n i p b b' here f,
      )

-- The loop of `sendMessage` over the packets of a message that holds its bytes finds every packet, passes
-- the sanity check that the packets have as many bytes as the message, and leaves each packet with the
-- header of its index, as it was otherwise.
pub fill_headers_lem :
    (h : DataHeader) (b : Buffer)
    → IsWhole b
    → (b' : Buffer) × (fill_headers h b ≡ some (b', b.message_length))
      × Headed (record h { total_length = b.message_length }) b.num_packets 0 b b'
unfolding fill_headers
fill_headers_lem h b v =
    let (b', e, f) =
      fill_loop_lem (record h { total_length = b.message_length }) b.message_length b.num_packets 0
        0 b (λ j low high. v.filled.present j (omega arith)) in
    (b', e ∙ ap (λ k. some (b', k)) (grind (arith, v.filled.covers)), f)
