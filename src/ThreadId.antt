-- ===== src/ThreadId.antt =====
-- src/ThreadId.cc: identifiers and names of threads.
-- A thread is a number. What runs under the mutex is one step, and so is a whole operation, since only
-- its own thread writes its identifier.
pub mod Names
mod Tests
use homa.Base.{ℕ, ◌+◌, ◌%◌, ◌^◌, Option, none, some, [], ◌∷◌, ◌==◌, if◌then◌else◌, maybe}
use homa.StringUtil.{Chars}

-- `id` of each thread, `nextId` and `threadNames`.
pub record ThreadIds : Type 0 where
  pub id : ℕ → ℕ
  pub next_id : ℕ
  pub thread_names : ℕ → Option Chars

unfoldable pub make_thread_ids : ThreadIds
make_thread_ids = record { id = λ t. 0; next_id = 1; thread_names = λ i. none }

-- `assign`
unfoldable pub assign : ℕ → ThreadIds → ThreadIds
assign t s = record s {
  id = λ u. if u == t then s.next_id else s.id u;
  next_id = (s.next_id + 1) % 2 ^ 64;
}

-- `getId`: the state after it; the identifier is `id` of the thread there.
unfoldable pub get_id : ℕ → ThreadIds → ThreadIds
get_id t s = if s.id t == 0 then assign t s else s

-- The entry of a name; the empty name takes it out.
abbrev pub name_entry : Chars → Option Chars
name_entry [] = none
name_entry (c ∷ name) = some (c ∷ name)

-- `setName`
unfoldable pub set_name : ℕ → Chars → ThreadIds → ThreadIds
set_name t name s =
    let s' = get_id t s in
    record s' { thread_names = λ i. if i == s'.id t then name_entry name else s'.thread_names i }

-- `getName`; `format` gives the text "thread %lu" for a number.
unfoldable pub get_name : (format : ℕ → Chars) → ℕ → ThreadIds → Chars × ThreadIds
get_name format t s =
    let s' = get_id t s in (maybe (format (s'.id t)) (λ name. name) (s'.thread_names (s'.id t)), s')
