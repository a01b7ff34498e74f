-- ===== src/Timeout/Laws.antt =====
-- The order that `TimeoutManager` keeps, and what its one-word summary `nextTimeout` is worth.
use homa.Base.{
  ℕ, ◌+◌, ◌%◌, ◌≤◌, ◌<◌, ◌≡◌, refl, inl, inr, true, false, some, List, [], ◌∷◌, arith, leb, ◌==◌,
  Bool-cases, All, All-append, AtLeast, AtMost, IsSorted, AtMost-le, IsSorted-append_last,
}
use homa.Timeout.{
  word, never, Timeout, TimeoutManager, has_elapsed, make_manager, unlink, earliest, set_timeout,
  cancel_timeout, any_elapsed, first, front,
}

abbrev pub expiry : Timeout → ℕ
expiry t = t.expiration

-- The scheduled timeouts of a manager at the time `now` of its last change: in the order of their
-- expiration, none later than one interval from `now`, with `next_timeout` that of the first.
pub record IsValid (now : ℕ) (m : TimeoutManager) : Type 0 where
  pub sorted : IsSorted expiry m.list
  pub within : AtMost expiry (now + m.interval) m.list
  pub summary : m.next_timeout ≡ earliest m.list

unlink-AtLeast :
    (k owner : ℕ) (ts : List Timeout) → AtLeast expiry k ts → AtLeast expiry k (unlink owner ts)
unlink-AtLeast k owner [] p = tt
unlink-AtLeast k owner (t ∷ ts) p = elim (Bool-cases (t.owner == owner)) [
  | inl e ↦ rw e p.1
  | inr e ↦ rw e (p.0, unlink-AtLeast k owner ts p.1)
]

unlink-AtMost :
    (k owner : ℕ) (ts : List Timeout) → AtMost expiry k ts → AtMost expiry k (unlink owner ts)
unlink-AtMost k owner [] p = tt
unlink-AtMost k owner (t ∷ ts) p = elim (Bool-cases (t.owner == owner)) [
  | inl e ↦ rw e p.1
  | inr e ↦ rw e (p.0, unlink-AtMost k owner ts p.1)
]

unlink-IsSorted :
    (owner : ℕ) (ts : List Timeout) → IsSorted expiry ts → IsSorted expiry (unlink owner ts)
unlink-IsSorted owner [] s = tt
unlink-IsSorted owner (t ∷ ts) s = elim (Bool-cases (t.owner == owner)) [
  | inl e ↦ rw e s.1
  | inr e ↦ rw e (unlink-AtLeast t.expiration owner ts s.0, unlink-IsSorted owner ts s.1)
]

-- A new manager is valid at any time.
pub make_manager-IsValid : (now interval : ℕ) → IsValid now (make_manager interval)
unfolding make_manager
make_manager-IsValid now interval = record { sorted = tt; within = tt; summary = refl }

-- Setting a timeout keeps the manager valid, if the clock has not gone back since its last change
-- and the expiration fits the 64-bit counter.
pub set_timeout-IsValid :
    (before now owner : ℕ) (m : TimeoutManager)
    → IsValid before m
    → before ≤ now
    → now + m.interval < word
    → IsValid now (set_timeout now owner m)
unfolding set_timeout
set_timeout-IsValid before now owner m v h fits =
    let e : (now + m.interval) % word ≡ now + m.interval = omega arith in
    rw e (record {
      sorted =
          IsSorted-append_last expiry (unlink owner m.list) _
            (unlink-IsSorted owner m.list v.sorted) kept;
      within = All-append _ (unlink owner m.list) _ kept (omega arith, tt);
      summary = refl;
    })
  where
    kept : AtMost expiry (now + m.interval) (unlink owner m.list)
    kept = unlink-AtMost _ owner m.list (AtMost-le expiry m.list (omega arith) v.within)

-- Cancelling a timeout, scheduled or not, keeps the manager valid.
pub cancel_timeout-IsValid :
    (now owner : ℕ) (m : TimeoutManager) → IsValid now m → IsValid now (cancel_timeout owner m)
unfolding cancel_timeout
cancel_timeout-IsValid now owner m v = record {
  sorted = unlink-IsSorted owner m.list v.sorted;
  within = unlink-AtMost _ owner m.list v.within;
  summary = refl;
}

none_elapsed :
    (now k : ℕ) (ts : List Timeout)
    → now < k
    → AtLeast expiry k ts
    → All (λ t. has_elapsed now t ≡ false) ts
unfolding has_elapsed
none_elapsed now k [] h p = tt
none_elapsed now k (t ∷ ts) h p = (ground arith, none_elapsed now k ts h p.1)

-- What the expiration of the first timeout tells of a sorted list.
Summarises : ℕ → List Timeout → Type 0
Summarises now ts =
    (leb (earliest ts) now ≡ false → All (λ t. has_elapsed now t ≡ false) ts)
    × (leb (earliest ts) now ≡ true
        → (t : Timeout) × (first ts ≡ some t) × (has_elapsed now t ≡ true))

earliest-Summarises :
    (now : ℕ) (ts : List Timeout) → now < never → IsSorted expiry ts → Summarises now ts
unfolding Summarises has_elapsed
earliest-Summarises now [] h s = (λ e. tt, λ e. absurd (ground arith))
earliest-Summarises now (t ∷ ts) h s =
    (λ e. (e, none_elapsed now t.expiration ts (ground arith) s.0), λ e. (t, refl, e))

-- Before the last value of the counter the answer of `anyElapsed` on a valid manager is exact: if it
-- is `false`, no scheduled timeout has elapsed, and if it is `true`, the first one has.
pub any_elapsed_exact :
    (at now : ℕ) (m : TimeoutManager)
    → IsValid at m
    → now < never
    → (any_elapsed now m ≡ false → All (λ t. has_elapsed now t ≡ false) m.list)
      × (any_elapsed now m ≡ true → (t : Timeout) × (front m ≡ some t) × (has_elapsed now t ≡ true))
unfolding any_elapsed front Summarises
any_elapsed_exact at now m v h = rw v.summary (earliest-Summarises now m.list h v.sorted)
