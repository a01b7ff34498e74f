-- ===== src/Debug/Tests.antt =====
-- Concrete instances: a policy with a pattern that has an `@`, and a logger that is asked twice.
use homa.Base.{ℕ, ◌≡◌, refl, true, false, none, some, List, [], ◌∷◌, arith, All}
use homa.StringUtil.{Chars, starts_with, ends_with}
use homa.Debug.{
  verbose, error, notice, log_level_to_string, LogPolicy, get_log_level, log_policy_from_string,
  log_policy_to_string, relative_file_name, log_level_from_string, equal_ignoring_case, lower,
}
use homa.Debug.PolicyText.{IsPlain, closed, log_policy_from_string-log_policy_to_string}
use homa.Debug.Logging.{Logger}
use homa.Debug.Caching.{Request, ask, change, run, judge, run-judge}

-- "a@b" at VERBOSE, and the others at ERROR.
abbrev policy : LogPolicy
policy = (97 ∷ 64 ∷ 98 ∷ [], log_level_to_string verbose) ∷ ([], log_level_to_string error) ∷ []

policy-IsPlain : All IsPlain policy
policy-IsPlain = (
  record {
    pattern_lacks = ground arith;
    level_lacks = ground arith;
    no_at = ground arith;
    named = λ e. cc e;
  },
  (
    record {
      pattern_lacks = tt;
      level_lacks = ground arith;
      no_at = ground arith;
      named = λ e. cc e;
    },
    tt,
  ),
)

log_policy_example :
    (log_policy_from_string (log_policy_to_string policy) ≡ some (closed policy))
    × ((file_name : Chars)
        → get_log_level (closed policy) file_name ≡ get_log_level policy file_name)
log_policy_example = log_policy_from_string-log_policy_to_string policy policy-IsPlain

-- One file, with the name "x/a@b".
abbrev literals : ℕ → Chars
literals p = 120 ∷ 47 ∷ 97 ∷ 64 ∷ 98 ∷ []

abbrev logger : Logger
logger = record { log_policy = []; is_logging_cache = λ _. none; stream = 2; log_handler = none }

abbrev requests : List Request
requests = ask verbose 7 ∷ ask notice 7 ∷ change policy ∷ ask verbose 7 ∷ []

run-judge_example : run [] literals requests logger ≡ judge [] literals requests []
run-judge_example = run-judge [] literals requests logger (λ p v e. cc e)

judged : judge [] literals requests [] ≡ some (false ∷ true ∷ true ∷ [])
unfolding judge get_log_level starts_with ends_with relative_file_name log_level_from_string
    equal_ignoring_case lower
judged = refl
