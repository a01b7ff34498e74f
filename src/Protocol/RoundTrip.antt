-- ===== src/Protocol/RoundTrip.antt =====
-- Headers read from the bytes to which they were written.
use homa.Base.{
  ℕ, zero, suc, ◌+◌, ◌/◌, ◌%◌, ◌^◌, ◌≤◌, ◌<◌, ◌≡◌, refl, ◌∙◌, ◌⊎◌, inl, inr, some, List, [], ◌∷◌,
  arith, ◌==◌, if◌then◌else◌, ==_refl, All,
}
use native.Mathlib.Nat.{pow-suc}
use homa.Protocol.{
  MessageId, Packet, data_packet, grant_packet, done_packet, resend_packet, busy_packet,
  ping_packet, unknown_packet, error_packet,
}
use homa.Protocol.Wire.{
  Payload, load, store, swap16, Field, store_fields, header_fields, write_header, header_size,
  read_header,
}

-- A store changes no byte outside its field.
store_apart :
    (w : ℕ) (p : Payload) (offset value i : ℕ)
    → (i < offset) ⊎ (offset + w ≤ i)
    → store p offset w value i ≡ p i
unfolding store
store_apart zero p offset value i h = refl
store_apart (suc w) p offset value i h =
    store_apart w _ (offset + 1) (value / 256) i (ground arith) ∙ ground arith

load-congr :
    (w : ℕ) (p q : Payload) (offset : ℕ)
    → ((i : ℕ) → offset ≤ i → i < offset + w → p i ≡ q i)
    → load p offset w ≡ load q offset w
unfolding load
load-congr zero p q offset h = refl
load-congr (suc w) p q offset h = omega (
  arith,
  h offset (omega arith) (omega arith),
  load-congr w p q (offset + 1) (λ i a b. h i (omega arith) (omega arith)),
)

load-store_self :
    (w : ℕ) (p : Payload) (offset value : ℕ)
    → value < 256 ^ w
    → load (store p offset w value) offset w ≡ value
unfolding load store
load-store_self zero p offset value h = omega arith
load-store_self (suc w) p offset value h = omega (
  arith,
  store_apart w (λ i. if i == offset then value % 256 else p i) (offset + 1) (value / 256) offset
        (inl (omega arith))
      ∙ first,
  load-store_self w (λ i. if i == offset then value % 256 else p i) (offset + 1) (value / 256)
      (omega (arith, pow-suc 256 w)),
)
  where
    first : (if offset == offset then value % 256 else p offset) ≡ value % 256
    first = rw ==_refl refl

-- The fields lie one after the other, from an offset on, and each value fits its field.
abbrev pub AreLaid : ℕ → List Field → Type 0
AreLaid offset [] = Unit {0}
AreLaid offset (f ∷ fs) =
    offset ≤ f.offset × f.value < 256 ^ f.width × AreLaid (f.offset + f.width) fs

-- What lies before laid fields is not touched.
load-store_fields_before :
    (fs : List Field) (p : Payload) (start offset width : ℕ)
    → offset + width ≤ start
    → AreLaid start fs
    → load (store_fields fs p) offset width ≡ load p offset width
unfolding store_fields
load-store_fields_before [] p start offset width h laid = refl
load-store_fields_before (f ∷ fs) p start offset width h laid =
    load-store_fields_before fs _ (f.offset + f.width) offset width (omega arith) laid.2
    ∙ load-congr width _ p offset
        (λ i a b. store_apart f.width p f.offset f.value i (inl (omega arith)))

-- Each field holds its value after all are stored.
pub fields_hold :
    (fs : List Field) (p : Payload) (start : ℕ)
    → AreLaid start fs
    → All (λ f. load (store_fields fs p) f.offset f.width ≡ f.value) fs
unfolding store_fields
fields_hold [] p start laid = tt
fields_hold (f ∷ fs) p start laid = (
  load-store_fields_before fs _ (f.offset + f.width) f.offset f.width (omega arith) laid.2
      ∙ load-store_self f.width p f.offset f.value laid.1,
  fields_hold fs _ (f.offset + f.width) laid.2,
)

-- The fields of an identifier are words of 64 bits.
abbrev pub IdFits : MessageId → Type 0
IdFits id = id.transport_id < 2 ^ 64 × id.sequence < 2 ^ 64

-- The fields of a header are integers of the width that they are declared with.
abbrev pub Fits : Packet → Type 0
Fits (data_packet h) =
    h.sport < 2 ^ 16
    × h.dport < 2 ^ 16
    × IdFits h.id
    × h.total_length < 2 ^ 32
    × h.policy_version < 2 ^ 8
    × h.unscheduled_index_limit < 2 ^ 16
    × h.index < 2 ^ 16
Fits (grant_packet h) = IdFits h.id × h.byte_limit < 2 ^ 32 × h.priority < 2 ^ 8
Fits (resend_packet h) = IdFits h.id × h.index < 2 ^ 16 × h.num < 2 ^ 16 × h.priority < 2 ^ 8
Fits (done_packet id) = IdFits id
Fits (busy_packet id) = IdFits id
Fits (ping_packet id) = IdFits id
Fits (unknown_packet id) = IdFits id
Fits (error_packet id) = IdFits id

swap16-swap16 : (x : ℕ) → x < 2 ^ 16 → swap16 (swap16 x) ≡ x
unfolding swap16
swap16-swap16 x h = omega arith

pub swap16-lt : (x : ℕ) → swap16 x < 2 ^ 16
unfolding swap16
swap16-lt x = omega arith

header_fields-AreLaid : (h : Packet) → Fits h → AreLaid 0 (header_fields h)
unfolding header_fields
header_fields-AreLaid (data_packet h) f = omega (arith, swap16-lt h.sport, swap16-lt h.dport)
header_fields-AreLaid (grant_packet h) f = omega arith
header_fields-AreLaid (resend_packet h) f = omega arith
header_fields-AreLaid (done_packet id) f = omega arith
header_fields-AreLaid (busy_packet id) f = omega arith
header_fields-AreLaid (ping_packet id) f = omega arith
header_fields-AreLaid (unknown_packet id) f = omega arith
header_fields-AreLaid (error_packet id) f = omega arith

-- What the bytes of a header hold.
written :
    (h : Packet) (p : Payload)
    → Fits h
    → All (λ f. load (write_header h p) f.offset f.width ≡ f.value) (header_fields h)
unfolding write_header
written h p f = fields_hold (header_fields h) p 0 (header_fields-AreLaid h f)

-- Fields that end before a byte leave it alone.
pub store_fields_apart :
    (fs : List Field) (p : Payload) (i : ℕ)
    → All (λ f. f.offset + f.width ≤ i) fs
    → store_fields fs p i ≡ p i
unfolding store_fields
store_fields_apart [] p i h = refl
store_fields_apart (f ∷ fs) p i h =
    store_fields_apart fs (store p f.offset f.width f.value) i h.1
    ∙ store_apart f.width p f.offset f.value i (inr h.0)

write_header_apart :
    (h : Packet) (p : Payload) (i : ℕ) → header_size h ≤ i → write_header h p i ≡ p i
unfolding write_header header_fields header_size
write_header_apart (data_packet h) p i le = store_fields_apart _ p i (omega arith)
write_header_apart (grant_packet h) p i le = store_fields_apart _ p i (omega arith)
write_header_apart (resend_packet h) p i le = store_fields_apart _ p i (omega arith)
write_header_apart (done_packet id) p i le = store_fields_apart _ p i (omega arith)
write_header_apart (busy_packet id) p i le = store_fields_apart _ p i (omega arith)
write_header_apart (ping_packet id) p i le = store_fields_apart _ p i (omega arith)
write_header_apart (unknown_packet id) p i le = store_fields_apart _ p i (omega arith)
write_header_apart (error_packet id) p i le = store_fields_apart _ p i (omega arith)

-- The bytes hold the fields of a header.
Holds : Packet → Payload → Type 0
Holds h q = All (λ f. load q f.offset f.width ≡ f.value) (header_fields h)

read_held : (h : Packet) (q : Payload) → Fits h → Holds h q → read_header q ≡ some h
unfolding Holds read_header header_fields
read_held (data_packet h) q f w = ground (arith, w, swap16-swap16 h.sport, swap16-swap16 h.dport)
read_held (grant_packet h) q f w = ground (arith, w)
read_held (resend_packet h) q f w = ground (arith, w)
read_held (done_packet id) q f w = ground (arith, w)
read_held (busy_packet id) q f w = ground (arith, w)
read_held (ping_packet id) q f w = ground (arith, w)
read_held (unknown_packet id) q f w = ground (arith, w)
read_held (error_packet id) q f w = ground (arith, w)

-- Fields that end before a byte are read from the bytes before it.
fields-congr :
    (n : ℕ) (p q : Payload) (fs : List Field)
    → ((i : ℕ) → i < n → q i ≡ p i)
    → All (λ f. f.offset + f.width ≤ n) fs
    → All (λ f. load p f.offset f.width ≡ f.value) fs
    → All (λ f. load q f.offset f.width ≡ f.value) fs
fields-congr n p q [] same inside held = tt
fields-congr n p q (f ∷ fs) same inside held = (
  load-congr f.width q p f.offset (λ i a b. same i (omega (arith, inside.0))) ∙ held.0,
  fields-congr n p q fs same inside.1 held.1,
)

header_fields_inside :
    (h : Packet) → All (λ f. f.offset + f.width ≤ header_size h) (header_fields h)
unfolding header_fields header_size
header_fields_inside (data_packet h) = omega arith
header_fields_inside (grant_packet h) = omega arith
header_fields_inside (resend_packet h) = omega arith
header_fields_inside (done_packet id) = omega arith
header_fields_inside (busy_packet id) = omega arith
header_fields_inside (ping_packet id) = omega arith
header_fields_inside (unknown_packet id) = omega arith
header_fields_inside (error_packet id) = omega arith

-- A header is read from any bytes that begin with those to which it was written.
pub read_header_prefix :
    (h : Packet) (p q : Payload)
    → Fits h
    → ((i : ℕ) → i < header_size h → q i ≡ write_header h p i)
    → read_header q ≡ some h
unfolding Holds
read_header_prefix h p q f same = read_held h q f (
    fields-congr (header_size h) (write_header h p) q (header_fields h) same
      (header_fields_inside h) (written h p f))

-- A header whose fields fit their widths is read back from the bytes to which it was written, whatever
-- the payload held before, and the bytes behind the header are left alone.
pub read_header-write_header :
    (h : Packet) (p : Payload)
    → Fits h
    → (read_header (write_header h p) ≡ some h)
      × ((i : ℕ) → header_size h ≤ i → write_header h p i ≡ p i)
read_header-write_header h p f =
    (read_header_prefix h p (write_header h p) f (λ i lt. refl), write_header_apart h p)
