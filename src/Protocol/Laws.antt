-- ===== src/Protocol/Laws.antt =====
-- Message identifiers are ordered and told apart as pairs of numbers.
use homa.Base.{ℕ, ◌<◌, ◌≡◌, ◌↔◌, ◌⊎◌, true, false, arith}
use homa.Protocol.{MessageId, id_lt, id_eq, bucket_index}

pub id_eq_iff : (a b : MessageId) → (id_eq a b ≡ true) ↔ (a ≡ b)
unfolding id_eq
id_eq_iff a b = ground arith

-- `operator<` is a strict total order whose ties are exactly the equal identifiers.
pub id_lt_order :
    (a b c : MessageId)
    → (id_lt a a ≡ false)
      × (id_lt a b ≡ true → id_lt b c ≡ true → id_lt a c ≡ true)
      × ((id_lt a b ≡ true) ⊎ (id_lt b a ≡ true) ⊎ (id_eq a b ≡ true))
unfolding id_lt id_eq
id_lt_order a b c = (ground arith, λ h k. ground arith, ground arith)

pub bucket_index_lt : (hash : ℕ → ℕ) (id : MessageId) → bucket_index hash id < 256
unfolding bucket_index
bucket_index_lt hash id = omega arith
