-- ===== src/Receiver/Reading.antt =====
-- src/Receiver.cc: what `get` copies out of a message whose packets carry its bytes.
use homa.Base.{
  ℕ, zero, suc, ◌+◌, ◌-◌, ◌*◌, ◌/◌, ◌%◌, ◌≤◌, ◌<◌, min, ◌≡◌, refl, ap, ◌∙◌, subst, inl, inr, true,
  false, some, [], ◌∷◌, ◌++◌, arith, ltb, leb, ◌==◌, Bool-cases,
}
use homa.Receiver.{DriverPacket, Message, max_message_packets}
use homa.Receiver.Messages.{get_packet, copy, get_loop, get}

-- The packet at an index carries the bytes of a message, each by its offset in the message.
pub record CarriesAt (bytes : ℕ → ℕ) (m : Message) (i : ℕ) (packet : DriverPacket) : Type 0 where
  pub stored : m.packets i ≡ some packet
  pub carried :
      (o : ℕ)
      → o < m.packet_data_length
      → i * m.packet_data_length + o < m.message_length
      → packet.payload (o + m.transport_header_length) ≡ bytes (i * m.packet_data_length + o)

-- All the packets of a message have come, and carry its bytes; their number is limited.
pub record Carries (bytes : ℕ → ℕ) (m : Message) : Type 0 where
  pub positive : 0 < m.packet_data_length
  pub limit : m.message_length ≤ m.packet_data_length * max_message_packets
  pub all_stored :
      (i : ℕ)
      → i * m.packet_data_length < m.message_length
      → (packet : DriverPacket) × CarriesAt bytes m i packet

copy-append :
    (payload : ℕ → ℕ) (offset n k : ℕ)
    → copy payload offset n ++ copy payload (offset + n) k ≡ copy payload offset (n + k)
unfolding copy
copy-append payload offset zero k =
    let same : offset + 0 ≡ offset = omega arith in
    let count : k ≡ 0 + k = omega arith in
    ap (λ o. copy payload o k) same ∙ ap (copy payload offset) count
copy-append payload offset (suc n) k =
    let same : offset + suc n ≡ offset + 1 + n = omega arith in
    let count : suc (n + k) ≡ suc n + k = omega arith in
    ap (λ o. payload offset ∷ copy payload (offset + 1) n ++ copy payload o k) same
    ∙ ap (λ bs. payload offset ∷ bs) (copy-append payload (offset + 1) n k)
    ∙ ap (copy payload offset) count

copy-congr :
    (payload bytes : ℕ → ℕ) (offset first n : ℕ)
    → ((o : ℕ) → o < n → payload (offset + o) ≡ bytes (first + o))
    → copy payload offset n ≡ copy bytes first n
unfolding copy
copy-congr payload bytes offset first zero same = refl
copy-congr payload bytes offset first (suc n) same =
    let head : payload offset ≡ bytes first =
      subst (λ k. payload k ≡ bytes first) (omega arith)
        (subst (λ k. payload (offset + 0) ≡ bytes k) (omega arith) (same 0 (omega arith))) in
    let tail : copy payload (offset + 1) n ≡ copy bytes (first + 1) n =
      copy-congr payload bytes (offset + 1) (first + 1) n (λ o below.
        subst (λ k. payload k ≡ bytes (first + 1 + o)) (omega arith)
          (subst (λ k. payload (offset + suc o) ≡ bytes k) (omega arith)
            (same (suc o) (omega arith)))) in
    rw (head, tail) refl

copy-nothing : (payload : ℕ → ℕ) (offset n : ℕ) → n ≤ 0 → copy payload offset n ≡ []
unfolding copy
copy-nothing payload offset zero h = refl
copy-nothing payload offset (suc n) h = absurd (omega arith)

suc_not_zero : (k : ℕ) → (suc k == 0) ≡ false
suc_not_zero k = ground arith

get_loop_done :
    (fuel : ℕ) (m : Message) (index offset : ℕ) → get_loop fuel m 0 index offset ≡ some []
unfolding get_loop
get_loop_done zero m index offset = refl
get_loop_done (suc fuel) m index offset = refl

module _ (bytes : ℕ → ℕ) (m : Message) (carries : Carries bytes m) where
  -- A packet of the message is found.
  get_packet_lem :
      (i : ℕ)
      → i * m.packet_data_length < m.message_length
      → (packet : DriverPacket) × (get_packet i m ≡ some (some packet)) × CarriesAt bytes m i packet
  unfolding get_packet
  get_packet_lem i inside =
      let (packet, at) = carries.all_stored i inside in
      let low : ltb i 1024 ≡ true = grind (arith, carries.limit, carries.positive) in
      (packet, rw (low, at.stored) refl, at)

  get_loop_lem :
      (fuel left index offset : ℕ)
      → left ≤ fuel
      → offset < m.packet_data_length
      → index * m.packet_data_length + offset + left ≤ m.message_length
      → get_loop fuel m left index offset
        ≡ some (copy bytes (index * m.packet_data_length + offset) left)
  unfolding get_loop
  get_loop_lem zero left index offset enough here inside =
      rw (copy-nothing bytes (index * m.packet_data_length + offset) left enough) refl
  get_loop_lem (suc fuel) zero index offset enough here inside =
      rw (copy-nothing bytes (index * m.packet_data_length + offset) 0 (omega arith)) refl
  get_loop_lem (suc fuel) (suc left) index offset enough here inside =
      let d : ℕ = m.packet_data_length in
      let from : ℕ = index * d + offset in
      let n : ℕ = min (suc left) (d - offset) in
      let rest_left : ℕ = suc left - n in
      let (packet, found, at) = get_packet_lem index (ground arith) in
      let rest : get_loop fuel m rest_left (index + 1) 0 ≡ some (copy bytes (from + n) rest_left) =
        elim (Bool-cases (leb (suc left) (d - offset))) [
          | inl e ↦
              let none_left : rest_left ≡ 0 = ground arith in
              rw (none_left, get_loop_done, copy-nothing bytes (from + n) 0 (omega arith)) refl
          | inr e ↦
              let next : (index + 1) * d + 0 ≡ from + n = grind arith in
              subst (λ k. get_loop fuel m rest_left (index + 1) 0 ≡ some (copy bytes k rest_left))
                next
                (get_loop_lem fuel rest_left (index + 1) 0 (ground arith) carries.positive
                  (omega (arith, next)))
        ] in
      let part : copy packet.payload (offset + m.transport_header_length) n ≡ copy bytes from n =
        copy-congr packet.payload bytes (offset + m.transport_header_length) from n (λ o below.
          let level : index * d + (offset + o) ≡ from + o = omega arith in
          let place : offset + o + m.transport_header_length
              ≡ offset + m.transport_header_length + o =
            omega arith in
          subst (λ k. packet.payload k ≡ bytes (from + o)) place
            (subst (λ k. packet.payload (offset + o + m.transport_header_length) ≡ bytes k) level
              (at.carried (offset + o) (ground arith) (ground arith)))) in
      let all : n + rest_left ≡ suc left = ground arith in
      rw (suc_not_zero left, found, rest, part, copy-append bytes from n rest_left, all) refl

  -- `get` returns the bytes of the message from an offset of its unstripped part on: so many, or as many
  -- as the message has, if all its packets have come.
  pub get_lem :
      (offset count : ℕ)
      → get offset count m
        ≡ some (copy bytes (offset + m.start) (min count (m.message_length - (offset + m.start))))
  unfolding get
  get_lem offset count =
      let d : ℕ = m.packet_data_length in
      let first : ℕ = offset + m.start in
      let positive = carries.positive in
      let parts : first / d * d + first % d ≡ first = grind arith in
      let here : first % d < d = grind arith in
      let n : ℕ = min count (m.message_length - first) in
      elim (Bool-cases (leb m.message_length first)) [
        | inl e ↦ rw (e, copy-nothing bytes first n (ground arith)) refl
        | inr e ↦
            let loop : get_loop n m n (first / d) (first % d)
                ≡ some (copy bytes (first / d * d + first % d) n) =
              get_loop_lem n n (first / d) (first % d) (omega arith) here (ground arith) in
            rw (e, loop, parts) refl
      ]
