-- ===== src/Debug.antt =====
-- src/Debug.cc: log levels, the log policy with its text form, and the cache of `isLogging`.
pub mod PolicyText
pub mod Logging
pub mod Caching
mod Tests
use homa.Base.{
  ℕ, ◌+◌, Bool, true, false, ◌&&◌, ◌||◌, Option, none, some, List, [], ◌∷◌, ◌++◌, ltb, leb, ◌==◌,
  if◌then◌else◌, maybe, length, drop,
}
use homa.StringUtil.{Chars, equal, join, split, starts_with, ends_with}

-- `LogLevel`, and the numbers of its constants.
pub data LogLevel : Type 0 where
  silent error warning notice verbose : LogLevel

abbrev pub level_number : LogLevel → ℕ
level_number silent = 0
level_number error = 10
level_number warning = 20
level_number notice = 30
level_number verbose = 40

-- `logLevelToString`, in ASCII.
abbrev pub log_level_to_string : LogLevel → Chars
log_level_to_string silent = 83 ∷ 73 ∷ 76 ∷ 69 ∷ 78 ∷ 84 ∷ []
log_level_to_string error = 69 ∷ 82 ∷ 82 ∷ 79 ∷ 82 ∷ []
log_level_to_string warning = 87 ∷ 65 ∷ 82 ∷ 78 ∷ 73 ∷ 78 ∷ 71 ∷ []
log_level_to_string notice = 78 ∷ 79 ∷ 84 ∷ 73 ∷ 67 ∷ 69 ∷ []
log_level_to_string verbose = 86 ∷ 69 ∷ 82 ∷ 66 ∷ 79 ∷ 83 ∷ 69 ∷ []

-- `strcasecmp(s, t) == 0`, in the C locale.
unfoldable pub lower : Chars → Chars
lower [] = []
lower (c ∷ s) = (if leb 65 c && leb c 90 then c + 32 else c) ∷ lower s

unfoldable pub equal_ignoring_case : Chars → Chars → Bool
equal_ignoring_case s t = equal (lower s) (lower t)

-- `logLevelFromString`; `none` where it aborts.
unfoldable pub log_level_from_string : Chars → Option LogLevel
log_level_from_string level =
    if equal_ignoring_case level (log_level_to_string silent)
    then some silent
    else if equal_ignoring_case level (log_level_to_string error)
    then some error
    else if equal_ignoring_case level (log_level_to_string warning)
    then some warning
    else if equal_ignoring_case level (log_level_to_string notice)
    then some notice
    else if equal_ignoring_case level (log_level_to_string verbose)
    then some verbose
    else none

-- A rule of a policy: a pattern and the name of a level.
abbrev pub Rule : Type 0
Rule = Chars × Chars

abbrev pub LogPolicy : Type 0
LogPolicy = List Rule

-- `getLogLevel`
unfoldable pub get_log_level : LogPolicy → Chars → Option LogLevel
get_log_level [] file_name = some notice
get_log_level ((pattern, level) ∷ rules) file_name =
    if starts_with file_name pattern || ends_with file_name pattern
    then log_level_from_string level
    else get_log_level rules file_name

-- `relativeFileName`; `prefix` is the part of `__FILE__` before "src/Debug.cc".
unfoldable pub relative_file_name : (prefix file_name : Chars) → Chars
relative_file_name prefix file_name =
    if starts_with file_name prefix then drop (length prefix) file_name else file_name

-- The characters `,` and `@`.
abbrev pub comma : ℕ
comma = 44

abbrev pub at_sign : ℕ
at_sign = 64

-- The last string, which the vector gives up, and the ones before it.
abbrev pub pop_back : Chars → List Chars → List Chars × Chars
pop_back s [] = ([], s)
pop_back s (t ∷ ts) = let (init, last) = pop_back t ts in (s ∷ init, last)

-- A rule from the parts of its text: with no part the assertion fails.
unfoldable pub parse_rule : List Chars → Option Rule
parse_rule [] = none
parse_rule (level ∷ []) = some ([], level)
parse_rule (pattern ∷ level ∷ []) = some (pattern, level)
parse_rule (s ∷ t ∷ u ∷ parts) =
    let (pattern, level) = pop_back s (t ∷ u ∷ parts) in some (join pattern (at_sign ∷ []), level)

-- `logPolicyFromString`, over the texts of its rules.
unfoldable pub parse_rules : List Chars → Option LogPolicy
parse_rules [] = some []
parse_rules (text ∷ texts) =
    maybe none (λ rule. maybe none (λ rules. some (rule ∷ rules)) (parse_rules texts))
      (parse_rule (split text at_sign))

unfoldable pub log_policy_from_string : Chars → Option LogPolicy
log_policy_from_string text = parse_rules (split text comma)

-- What `logPolicyToString` writes for a rule.
unfoldable pub rule_text : Rule → Chars
rule_text ([], level) = level
rule_text (c ∷ pattern, level) = (c ∷ pattern) ++ at_sign ∷ level

abbrev pub is_empty : {A : Type 0} → List A → Bool
is_empty [] = true
is_empty (c ∷ s) = false

-- A comma between two rules.
abbrev pub separator : LogPolicy → Chars
separator [] = []
separator (rule ∷ rules) = comma ∷ []

-- The loop of `logPolicyToString` and what follows it.
unfoldable pub rules_text : (last_pattern_empty : Bool) → LogPolicy → Chars
rules_text last_pattern_empty [] =
    if last_pattern_empty then [] else comma ∷ log_level_to_string notice
rules_text last_pattern_empty (rule ∷ rules) =
    rule_text rule ++ (separator rules ++ rules_text (is_empty rule.0) rules)

-- `logPolicyToString`
unfoldable pub log_policy_to_string : LogPolicy → Chars
log_policy_to_string [] = log_level_to_string notice
log_policy_to_string (rule ∷ rules) = rules_text false (rule ∷ rules)
