-- ===== src/Timeout/Due.antt =====
-- src/Timeout.h: the timeouts of a manager that are due, which the loops over elapsed timeouts count down.
use homa.Base.{
  ℕ, suc, ◌+◌, ◌%◌, ◌≤◌, ◌<◌, ◌≡◌, Bool, true, false, some, List, [], ◌∷◌, ◌++◌, arith,
  if◌then◌else◌, maybe, length,
}
use homa.Timeout.{Timeout, TimeoutManager, word, unlink, first, front, set_timeout, has_elapsed}

-- The timeout in front, if there is one, has elapsed.
abbrev pub is_due : ℕ → TimeoutManager → Bool
is_due now m = maybe false (has_elapsed now) (front m)

pub length-unlink-first :
    (ts : List Timeout) (t : Timeout)
    → first ts ≡ some t
    → suc (length (unlink t.owner ts)) ≡ length ts
length-unlink-first [] t e = cc
length-unlink-first (x ∷ ts) t e = ground arith

-- How many timeouts of a list have elapsed.
pub due_count : ℕ → List Timeout → ℕ
due_count now [] = 0
due_count now (t ∷ ts) = (if has_elapsed now t then 1 else 0) + due_count now ts

pub due_count-le : (now : ℕ) (ts : List Timeout) → due_count now ts ≤ length ts
unfolding due_count
due_count-le now [] = omega arith
due_count-le now (t ∷ ts) = ground (arith, due_count-le now ts)

pub due_count-append :
    (now : ℕ) (ts us : List Timeout)
    → due_count now (ts ++ us) ≡ due_count now ts + due_count now us
unfolding due_count
due_count-append now [] us = omega arith
due_count-append now (t ∷ ts) us = omega (arith, due_count-append now ts us)

pub due_count-unlink :
    (now : ℕ) (ts : List Timeout) (t : Timeout)
    → first ts ≡ some t
    → has_elapsed now t ≡ true
    → suc (due_count now (unlink t.owner ts)) ≡ due_count now ts
unfolding due_count
due_count-unlink now [] t e h = cc
due_count-unlink now (x ∷ ts) t e h = ground arith

-- The first timeout is due and is set anew, to a time that is ahead.
pub due_count-set :
    (now clock : ℕ) (m : TimeoutManager) (t : Timeout)
    → first m.list ≡ some t
    → has_elapsed now t ≡ true
    → now < (clock + m.interval) % word
    → suc (due_count now (set_timeout clock t.owner m).list) ≡ due_count now m.list
unfolding set_timeout
due_count-set now clock m t e late ahead = omega (
  arith,
  due_count-append now (unlink t.owner m.list) (fresh ∷ []),
  early,
  due_count-unlink now m.list t e late,
)
  where
    fresh : Timeout
    fresh = record { owner = t.owner; expiration = (clock + m.interval) % word }

    early : due_count now (fresh ∷ []) ≡ 0
    early = unfold due_count has_elapsed in ground arith
