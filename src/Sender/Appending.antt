-- ===== src/Sender/Appending.antt =====
-- src/Sender.cc: what `append` does to the bytes of a message.
use homa.Base.{
  ℕ, zero, suc, ◌+◌, ◌-◌, ◌*◌, ◌/◌, ◌%◌, ◌≤◌, ◌<◌, min, ◌≡◌, refl, sym, ap, ◌∙◌, subst, inl, inr,
  false, arith, ltb, leb, ◌==◌, Bool-cases,
}
use homa.Protocol.Wire.{Payload}
use homa.Sender.Buffer.{
  Buffer, empty, set_packet, empty, append_round, append_loop, accepted, append, max_message_length,
}
use homa.Sender.Filling.{
  IsFilled, byte_at, round-IsFilled, old_byte, new_byte_at, after-packet_data_length,
}

-- What the loop of `append` makes of a buffer that holds so many bytes: it holds `left` more, which
-- are those of the source, and the bytes before stay.
pub record Appended (source : ℕ → ℕ) (d copied filled left : ℕ) (b b' : Buffer) : Type 0 where
  pub holds : IsFilled (filled + left) b'
  pub size : b'.packet_data_length ≡ d
  pub start : b'.start ≡ b.start
  pub old : (i o : ℕ) → o < d → i * d + o < filled → byte_at b' i o ≡ byte_at b i o
  pub new :
      (i o : ℕ)
      → o < d
      → filled ≤ i * d + o
      → i * d + o < filled + left
      → byte_at b' i o ≡ source (copied + (i * d + o - filled))

Appended-nothing :
    (source : ℕ → ℕ) (copied filled : ℕ) (b : Buffer)
    → IsFilled filled b
    → Appended source b.packet_data_length copied filled 0 b b
Appended-nothing source copied filled b v = record {
  holds = subst (λ k. IsFilled k b) (omega arith) v;
  size = refl;
  start = refl;
  old = λ i o _ _. refl;
  new = λ i o _ low high. absurd (omega arith);
}

append_loop_done :
    (fuel : ℕ) (memory : ℕ → Payload) (source : ℕ → ℕ) (copied index offset : ℕ) (b : Buffer)
    → append_loop fuel memory source 0 copied index offset b ≡ b
unfolding append_loop
append_loop_done zero memory source copied index offset b = refl
append_loop_done (suc fuel) memory source copied index offset b = refl

-- One loop after another.
Appended-trans :
    (source : ℕ → ℕ) (d copied filled n left : ℕ) (b b' b'' : Buffer)
    → Appended source d copied filled n b b'
    → Appended source d (copied + n) (filled + n) left b' b''
    → Appended source d copied filled (n + left) b b''
Appended-trans source d copied filled n left b b' b'' f g = record {
  holds = subst (λ k. IsFilled k b'') (omega arith) g.holds;
  size = g.size;
  start = g.start ∙ f.start;
  old = λ i o inside low. g.old i o inside (omega arith) ∙ f.old i o inside low;
  new = λ i o inside low high. elim (Bool-cases (ltb (i * d + o) (filled + n))) [
    | inl e ↦ g.old i o inside (ground arith) ∙ f.new i o inside low (ground arith)
    | inr e ↦ g.new i o inside (ground arith) (ground arith) ∙ ap (λ k. source k) (ground arith)
  ];
}

append_round-Appended :
    (memory : ℕ → Payload) (source : ℕ → ℕ) (n copied index offset : ℕ) (b : Buffer)
    → offset + n ≤ b.packet_data_length
    → offset < b.packet_data_length
    → 0 < n
    → IsFilled (index * b.packet_data_length + offset) b
    → Appended source b.packet_data_length copied
        (index * b.packet_data_length + offset)
        n
        b
        (append_round memory source n copied index offset b)
unfolding append_round set_packet
append_round-Appended memory source n copied index offset b room here some_byte v = record {
  holds =
      subst (λ k. IsFilled k (append_round memory source n copied index offset b)) (omega arith)
        (round-IsFilled memory source n copied index offset b room here some_byte v);
  size = refl;
  start = refl;
  old = old_byte memory source n copied index offset b room here some_byte v;
  new = λ i o inside low high.
      new_byte_at memory source n copied index offset b room here some_byte v i o inside low
        (omega arith);
}

-- A loop that goes on at the next packet.
Appended-next :
    (source : ℕ → ℕ) (d copied index offset n left : ℕ) (b b' b'' : Buffer)
    → b'.packet_data_length ≡ d
    → offset + n ≡ d
    → Appended source d copied (index * d + offset) n b b'
    → (IsFilled ((index + 1) * b'.packet_data_length + 0) b'
        → Appended source b'.packet_data_length
            (copied + n)
            ((index + 1) * b'.packet_data_length + 0)
            left
            b'
            b'')
    → Appended source d copied (index * d + offset) (n + left) b b''
Appended-next source d copied index offset n left b b' b'' size full round rest =
    let same : (index + 1) * d + 0 ≡ index * d + offset + n = grind arith in
    Appended-trans source d copied (index * d + offset) n left b b' b'' round (
      subst (λ k. Appended source d (copied + n) k left b' b'') same
        (subst
          (λ k.
            IsFilled ((index + 1) * k + 0) b'
            → Appended source k (copied + n) ((index + 1) * k + 0) left b' b'')
          size rest (subst (λ k. IsFilled k b') (sym same) round.holds)))

suc_not_zero : (k : ℕ) → (suc k == 0) ≡ false
suc_not_zero k = ground arith

append_loop_lem :
    (fuel : ℕ) (memory : ℕ → Payload) (source : ℕ → ℕ) (left copied index offset : ℕ) (b : Buffer)
    → left ≤ fuel
    → offset < b.packet_data_length
    → IsFilled (index * b.packet_data_length + offset) b
    → Appended source b.packet_data_length copied
        (index * b.packet_data_length + offset)
        left
        b
        (append_loop fuel memory source left copied index offset b)
unfolding append_loop
append_loop_lem zero memory source zero copied index offset b enough here v =
    Appended-nothing source copied _ b v
append_loop_lem zero memory source (suc left) copied index offset b enough here v =
    absurd (omega arith)
append_loop_lem (suc fuel) memory source zero copied index offset b enough here v =
    Appended-nothing source copied _ b v
append_loop_lem (suc fuel) memory source (suc left) copied index offset b enough here v =
    let d : ℕ = b.packet_data_length in
    let n : ℕ = min (suc left) (d - offset) in
    let after : Buffer = append_round memory source n copied index offset b in
    let round : Appended source d copied (index * d + offset) n b after =
      append_round-Appended memory source n copied index offset b (ground arith) here (ground arith)
        v in
    elim (Bool-cases (leb (suc left) (d - offset))) [
      | inl e ↦
          let whole : n ≡ suc left = ground arith in
          let none_left : suc left - n ≡ 0 = omega (arith, whole) in
          rw (suc_not_zero left, none_left, append_loop_done)
            (subst (λ k. Appended source d copied (index * d + offset) k b after) whole round)
      | inr e ↦
          let fits : n ≡ d - offset = ground arith in
          let size : after.packet_data_length ≡ d =
            after-packet_data_length memory source n copied index offset b (ground arith) here
              (ground arith) v in
          let rest : Buffer =
            append_loop fuel memory source (suc left - n) (copied + n) (index + 1) 0 after in
          rw (suc_not_zero left) (
            subst (λ k. Appended source d copied (index * d + offset) k b rest) (ground arith)
              (Appended-next source d copied index offset n (suc left - n) b after rest size
                (ground arith) round
                (append_loop_lem fuel memory source (suc left - n) (copied + n) (index + 1) 0 after
                  (ground arith) (subst (λ k. 0 < k) (sym size) (ground arith)))))
    ]

-- A message that is being written: its packets hold its bytes, no more of them than the limit.
pub record IsWhole (b : Buffer) : Type 0 where
  pub positive : 0 < b.packet_data_length
  pub limit : b.message_length ≤ max_message_length b
  pub filled : IsFilled b.message_length b

-- A new message is whole.
pub empty-IsWhole : (d : ℕ) → 0 < d → IsWhole (empty d)
unfolding empty
empty-IsWhole d positive = record {
  positive = positive;
  limit = omega arith;
  filled = record {
    present = λ i h. absurd (omega arith);
    absent = λ i h. refl;
    covers = omega arith;
    tight = omega arith;
  };
}

Appended-message_length :
    (source : ℕ → ℕ) (d copied filled left l : ℕ) (b b' : Buffer)
    → Appended source d copied filled left b b'
    → Appended source d copied filled left b (record b' { message_length = l })
Appended-message_length source d copied filled left l b b' f = record {
  holds = record {
    present = f.holds.present;
    absent = f.holds.absent;
    covers = f.holds.covers;
    tight = f.holds.tight;
  };
  size = f.size;
  start = f.start;
  old = f.old;
  new = f.new;
}

-- `append` takes what the limit allows of the bytes of a source: the message holds that many more, which
-- are those of the source in their order, and its other bytes stay.
pub append-Appended :
    (memory : ℕ → Payload) (source : ℕ → ℕ) (count : ℕ) (b : Buffer)
    → IsWhole b
    → Appended source b.packet_data_length 0 b.message_length
        (accepted count b)
        b
        (append memory source count b)
unfolding append
append-Appended memory source count b v =
    let d : ℕ = b.packet_data_length in
    let n : ℕ = accepted count b in
    let positive = v.positive in
    let parts : b.message_length / d * d + b.message_length % d ≡ b.message_length = grind arith in
    let here : b.message_length % d < d = grind arith in
    let loop : Buffer =
      append_loop n memory source n 0 (b.message_length / d) (b.message_length % d) b in
    Appended-message_length source d 0 b.message_length n (b.message_length + n) b loop (
      subst (λ k. Appended source d 0 k n b loop) parts
        (append_loop_lem n memory source n 0 (b.message_length / d) (b.message_length % d) b
          (omega arith) here (subst (λ k. IsFilled k b) (sym parts) v.filled)))

pub append-IsWhole :
    (memory : ℕ → Payload) (source : ℕ → ℕ) (count : ℕ) (b : Buffer)
    → IsWhole b
    → IsWhole (append memory source count b)
unfolding append
append-IsWhole memory source count b v =
    let f = append-Appended memory source count b v in
    record {
      positive = subst (λ k. 0 < k) (sym f.size) v.positive;
      limit =
          subst (λ k. b.message_length + accepted count b ≤ k * 1024) (sym f.size)
            (ground (arith, v.limit));
      filled = f.holds;
    }
