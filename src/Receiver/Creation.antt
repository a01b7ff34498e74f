-- ===== src/Receiver/Creation.antt =====
-- src/Receiver.cc: a DATA packet creates its message, or comes to the one that is there.
use homa.Base.{
  arith, ◌/◌, ◌-◌, ◌+◌, sym, ℕ, ◌+◌, ◌-◌, ◌<◌, ◌≡◌, refl, sym, ap, ◌∙◌, subst, inl, inr, Bool, true,
  false, none, some, List, [], ◌∷◌, arith, ◌==◌, if◌then◌else◌, ==_iff, ==_refl, maybe, Bool-cases,
}
use homa.Protocol.{MessageId, id_eq, DataHeader, data_header_size}
use homa.Intrusive.{push_back}
use homa.Receiver.{
  DriverPacket, Message, Receiver, find_in, find_message, max_message_packets, bucket_of, modify,
  modify_bucket,
}
use homa.Receiver.Messages.{make_message}
use homa.Receiver.Schedule.{schedule}
use homa.Receiver.Handlers.{new_message, handle_data_packet}
use homa.Receiver.Keeping.{schedule-Quiet}
use homa.Receiver.Completion.{IsCounting, held_count-none}
use homa.Receiver.{in_progress}
use homa.Receiver.Arrival.{CarriesBytes, Fills, Held, Receiving, Stored, store_lem, Receiving-Quiet}

id_eq_refl : (id : MessageId) → id_eq id id ≡ true
unfolding id_eq
id_eq_refl id = rw (==_refl id.transport_id, ==_refl id.sequence) refl

some_not_none : {A : Type 0} (a : A) → some a ≡ none → ⊥
some_not_none a e = subst (λ o. maybe ⊥ (λ _. Unit {0}) o) e tt

-- A message whose identifier is new is found behind the others.
find_in-push_back :
    (heap heap' : ℕ → Message) (id : MessageId) (p : ℕ) (ps : List ℕ)
    → find_in heap id ps ≡ none
    → ((q : ℕ) → (q == p) ≡ false → (heap' q).id ≡ (heap q).id)
    → (heap' p).id ≡ id
    → find_in heap' id (push_back p ps) ≡ some p
unfolding find_in
find_in-push_back heap heap' id p [] missing same new = rw (new, id_eq_refl id) refl
find_in-push_back heap heap' id p (x ∷ xs) missing same new = elim (Bool-cases (x == p)) [
  | inl e ↦
      let at : x ≡ p = (==_iff x p).0 e in
      subst (λ y. find_in heap' id (push_back p (y ∷ xs)) ≡ some p) (sym at)
        (rw (new, id_eq_refl id) refl)
  | inr e ↦ rw (same x e) (elim (Bool-cases (id_eq (heap x).id id)) [
    | inl hit ↦ absurd (
        some_not_none x
          (subst (λ b. (if b then some x else find_in heap id xs) ≡ none) hit missing))
    | inr miss ↦ rw miss (
        find_in-push_back heap heap' id p xs
          (subst (λ b. (if b then some x else find_in heap id xs) ≡ none) miss missing) same new)
  ])
]

either :
    {A : Type 0} (P : A → Type 0) (test : Bool) (a b : A) → P a → P b → P (if test then a else b)
either P true a b pa pb = pa
either P false a b pa pb = pb

-- A new message stands in a bucket.
abbrev placed : (b p : ℕ) → Message → Receiver → Receiver
placed b p m s =
    modify_bucket b (λ k. record k { messages = push_back p k.messages })
      (record (modify p (λ _. m) s) { allocated = λ q. if q == p then true else s.allocated q })

-- The message that its first packet creates is found, and holds nothing yet.
module _ (bytes : ℕ → ℕ) (d l p : ℕ) (m : Message) (s : Receiver)
    (missing : find_message s m.id ≡ none) (fills : Fills bytes d l m) (counting : IsCounting m)
    (lacks : m.num_packets < m.num_expected_packets) (busy : m.state ≡ in_progress) where
  abbrev s' : Receiver
  s' = placed (bucket_of s m.id) p m s

  placed_here : s'.heap p ≡ m
  placed_here = rw ==_refl refl

  placed-Receiving : Receiving bytes d l m.id p s'
  unfolding find_message
  placed-Receiving = record {
    finding = record {
      found =
          rw (==_refl (bucket_of s m.id))
            (find_in-push_back s.heap _ m.id p _ missing (λ q e. rw e refl) (rw ==_refl refl));
      fills = subst (Fills bytes d l) (sym placed_here) fills;
    };
    progress = record {
      counted = subst IsCounting (sym placed_here) counting;
      phase = inl (
        subst (λ k. k.num_packets < k.num_expected_packets) (sym placed_here) lacks,
        ap (λ m. m.state) placed_here ∙ busy,
      );
    };
  }

pub new_message-Receiving :
    (bytes : ℕ → ℕ) (p ip : ℕ) (h : DataHeader) (s : Receiver)
    → 0
      < (h.total_length + (s.config.max_payload_size - data_header_size) - 1)
        / (s.config.max_payload_size - data_header_size)
    → find_message s h.id ≡ none
    → Receiving bytes
        (s.config.max_payload_size - data_header_size)
        h.total_length
        h.id
        p
        (new_message (bucket_of s h.id) p ip h s)
unfolding new_message make_message
new_message-Receiving bytes p ip h s lacks missing =
    let d : ℕ = s.config.max_payload_size - data_header_size in
    let m : Message =
      make_message s.config.max_payload_size h.total_length h.id
        (record { ip = ip; port = h.sport }) h.unscheduled_index_limit in
    let s' : Receiver = placed (bucket_of s h.id) p m s in
    let fills : Fills bytes d h.total_length m = record {
      size = refl;
      header = refl;
      whole = refl;
      unstripped = refl;
      expected = refl;
      carried = λ i packet at. absurd (some_not_none packet (sym at));
    } in
    let placed =
      placed-Receiving bytes d h.total_length p m s missing fills
        (sym (held_count-none m.num_expected_packets)) lacks refl in
    either (Receiving bytes d h.total_length h.id p) m.scheduled (schedule p s') s'
      (Receiving-Quiet bytes d h.total_length h.id p s' (schedule p s') (schedule-Quiet p s')
        placed)
      placed

-- A DATA packet of a message that is found is stored in it, unless it is a duplicate.
pub handle_data_packet_known :
    (bytes : ℕ → ℕ) (d l q p ip : ℕ) (h : DataHeader) (packet : DriverPacket) (s : Receiver)
    → h.index < max_message_packets
    → h.index < (l + d - 1) / d
    → CarriesBytes bytes d l h.index packet
    → Receiving bytes d l h.id q s
    → (s' : Receiver) × (handle_data_packet p ip h packet s ≡ some s')
      × Stored bytes d l h.id q h.index s s'
unfolding handle_data_packet
handle_data_packet_known bytes d l q p ip h packet s low inside carries r =
    let (s', e, after) =
      store_lem bytes d l h.id h.index packet low inside carries q s r (bucket_of s h.id) in
    (s', rw r.finding.found e, after)

-- A DATA packet of a new message creates it, and is stored in it.
pub handle_data_packet_new :
    (bytes : ℕ → ℕ) (p ip : ℕ) (h : DataHeader) (packet : DriverPacket) (s : Receiver)
    → h.index < max_message_packets
    → h.index
      < (h.total_length + (s.config.max_payload_size - data_header_size) - 1)
        / (s.config.max_payload_size - data_header_size)
    → CarriesBytes bytes
        (s.config.max_payload_size - data_header_size)
        h.total_length
        h.index
        packet
    → find_message s h.id ≡ none
    → (s' : Receiver) × (handle_data_packet p ip h packet s ≡ some s')
      × Receiving bytes (s.config.max_payload_size - data_header_size) h.total_length h.id p s'
      × Held h.index (s'.heap p)
unfolding handle_data_packet
handle_data_packet_new bytes p ip h packet s low inside carries missing =
    let d : ℕ = s.config.max_payload_size - data_header_size in
    let created : Receiver = new_message (bucket_of s h.id) p ip h s in
    let (s', e, after) =
      store_lem bytes d h.total_length h.id h.index packet low inside carries p created
        (new_message-Receiving bytes p ip h s (omega (arith, inside)) missing) (bucket_of s h.id) in
    (s', rw missing e, after.receiving, after.here)
