-- ===== src/ThreadId/Tests.antt =====
-- Concrete instances: thread 5 sets its name, and thread 6 takes an identifier and a name.
use homa.Base.{ℕ, ◌≡◌, List, [], ◌∷◌, arith}
use homa.StringUtil.{Chars}
use homa.ThreadId.{make_thread_ids, get_id, set_name, get_name}
use homa.ThreadId.Names.{
  Call, calls_get_id, calls_get_name, calls_set_name, run, make_thread_ids-IsValid, get_name_lem,
}

abbrev number : ℕ → Chars
number i = i ∷ []

abbrev name : Chars
name = 97 ∷ 98 ∷ []

abbrev others : List (ℕ × Call)
others = (6, calls_get_id) ∷ (6, calls_set_name (99 ∷ [])) ∷ (7, calls_get_name) ∷ []

get_name_example :
    let s' = run number others (set_name 5 name make_thread_ids) in
    ((get_name number 5 s').0 ≡ name)
    × (s'.id 5 ≡ (get_id 5 make_thread_ids).id 5)
    × ((u : ℕ) → s'.id u ≡ s'.id 5 → u ≡ 5)
unfolding make_thread_ids
get_name_example =
    get_name_lem number 5 name others make_thread_ids make_thread_ids-IsValid (λ e. cc e)
      (ground arith) (omega arith)
