-- ===== src/Timeout.antt =====
-- src/Timeout.h: timeouts of one fixed interval, kept in the order in which they were set.
-- A `Timeout` is embedded in the object that it times; here a scheduled timeout is the address of
-- that object with the expiration time, and a manager's list holds the scheduled ones, oldest first.
-- `rdtsc()` is the argument `now`, a reading of the cycle counter.
pub mod Laws
pub mod Due
mod Tests
use homa.Base.{
  ℕ, ◌+◌, ◌-◌, ◌%◌, ◌^◌, Bool, Option, none, some, List, [], ◌∷◌, ◌++◌, leb, ◌==◌, if◌then◌else◌,
}

abbrev pub word : ℕ
word = 2 ^ 64

-- UINT64_MAX
abbrev pub never : ℕ
never = 2 ^ 64 - 1

-- `class Timeout`
pub record Timeout : Type 0 where
  pub owner : ℕ
  pub expiration : ℕ

-- `class TimeoutManager`
pub record TimeoutManager : Type 0 where
  pub interval : ℕ
  pub next_timeout : ℕ
  pub list : List Timeout

-- `Timeout::hasElapsed`
unfoldable pub has_elapsed : ℕ → Timeout → Bool
has_elapsed now t = leb t.expiration now

-- The constructor.
unfoldable pub make_manager : ℕ → TimeoutManager
make_manager interval = record { interval = interval; next_timeout = never; list = [] }

-- `list.remove(&timeout->node)` for the timeout of this owner, which may not be scheduled.
abbrev pub unlink : ℕ → List Timeout → List Timeout
unlink owner [] = []
unlink owner (t ∷ ts) = if t.owner == owner then ts else t ∷ unlink owner ts

-- What `setTimeout` and `cancelTimeout` store in `nextTimeout`.
abbrev pub earliest : List Timeout → ℕ
earliest [] = never
earliest (t ∷ ts) = t.expiration

-- `TimeoutManager::setTimeout`
unfoldable pub set_timeout : ℕ → ℕ → TimeoutManager → TimeoutManager
set_timeout now owner m =
    let timeout : Timeout = record { owner = owner; expiration = (now + m.interval) % word } in
    let list = unlink owner m.list ++ (timeout ∷ []) in
    record m { next_timeout = earliest list; list = list }

-- `TimeoutManager::cancelTimeout`
unfoldable pub cancel_timeout : ℕ → TimeoutManager → TimeoutManager
cancel_timeout owner m =
    let list = unlink owner m.list in record m { next_timeout = earliest list; list = list }

-- `TimeoutManager::anyElapsed`
unfoldable pub any_elapsed : ℕ → TimeoutManager → Bool
any_elapsed now m = leb m.next_timeout now

-- The first of a list of timeouts, if there is one.
abbrev pub first : List Timeout → Option Timeout
first [] = none
first (t ∷ ts) = some t

-- `TimeoutManager::front`, `none` where the manager is `empty()`.
unfoldable pub front : TimeoutManager → Option Timeout
front m = first m.list
