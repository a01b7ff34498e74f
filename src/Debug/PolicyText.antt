-- ===== src/Debug/PolicyText.antt =====
-- A log policy that is printed and read back.
use homa.Base.{
  ◌≡◌, ◌≢◌, refl, ap, ◌∙◌, subst, Bool, true, false, some, List, [], ◌∷◌, ◌++◌, append-nil, arith,
  ◌==◌, All, All-append,
}
use homa.StringUtil.{Chars, join, split, starts_with}
use homa.StringUtil.Splitting.{
  Lacks, AreItems, split-join, parts, HasPart, parts-HasPart, join-parts, parts-AreItems, join-last,
}
use homa.Debug.{
  notice, log_level_to_string, log_level_from_string, equal_ignoring_case, lower, Rule, LogPolicy,
  get_log_level, comma, at_sign, pop_back, parse_rule, parse_rules, log_policy_from_string,
  rule_text, is_empty, rules_text, log_policy_to_string,
}

-- A rule that its text shows: no comma in it, and a level that is not empty and has no `@`.
pub record IsPlain (rule : Rule) : Type 0 where
  pub pattern_lacks : Lacks comma rule.0
  pub level_lacks : Lacks comma rule.1
  pub no_at : Lacks at_sign rule.1
  pub named : rule.1 ≢ []

-- NOTICE for every file.
abbrev pub default_rule : Rule
default_rule = ([], log_level_to_string notice)

-- The policy that is printed: NOTICE comes last, but where the last rule is for every file.
abbrev pub closing : Bool → LogPolicy
closing true = []
closing false = default_rule ∷ []

abbrev pub closed_from : Bool → LogPolicy → LogPolicy
closed_from last_empty [] = closing last_empty
closed_from last_empty (rule ∷ rules) = rule ∷ closed_from (is_empty rule.0) rules

abbrev pub closed : LogPolicy → LogPolicy
closed policy = closed_from false policy

abbrev pub texts : LogPolicy → List Chars
texts [] = []
texts (rule ∷ rules) = rule_text rule ∷ texts rules

pop_back-append :
    (s : Chars) (ps : List Chars) (last : Chars) → pop_back s (ps ++ last ∷ []) ≡ (s ∷ ps, last)
pop_back-append s [] last = refl
pop_back-append s (p ∷ ps) last = cc (pop_back-append p ps last)

parse_rule-last :
    (ps : List Chars) (level : Chars)
    → HasPart ps
    → parse_rule (ps ++ level ∷ []) ≡ some (join ps (at_sign ∷ []), level)
unfolding parse_rule join
parse_rule-last [] level (_, _, e) = absurd (cc e)
parse_rule-last (p ∷ []) level h = refl
parse_rule-last (p ∷ q ∷ []) level h = refl
parse_rule-last (p ∷ q ∷ r ∷ ps) level h = cc (pop_back-append p (q ∷ r ∷ ps) level)

-- The text of a rule is read back.
parse_rule-rule_text :
    (rule : Rule) → IsPlain rule → parse_rule (split (rule_text rule) at_sign) ≡ some rule
unfolding rule_text join
parse_rule-rule_text ([], level) h =
    ap parse_rule (split-join at_sign (level ∷ []) (h.no_at, h.named)) ∙ unfold parse_rule in refl
parse_rule-rule_text (c ∷ pattern, level) h =
    let p = c ∷ pattern in
    let some_part = parts-HasPart at_sign p in
    let joined : join (parts at_sign p ++ level ∷ []) (at_sign ∷ []) ≡ p ++ at_sign ∷ level =
      join-last (parts at_sign p) level (at_sign ∷ []) some_part
      ∙ ap (λ s. s ++ at_sign ∷ level) (join-parts at_sign p) in
    let items =
      split-join at_sign (parts at_sign p ++ level ∷ [])
        (parts-AreItems at_sign p level h.no_at h.named) in
    subst (λ s. parse_rule (split s at_sign) ≡ some (p, level)) joined
      (cc (items, parse_rule-last (parts at_sign p) level some_part, join-parts at_sign p))

parse_rules-texts :
    (policy : LogPolicy) → All IsPlain policy → parse_rules (texts policy) ≡ some policy
unfolding parse_rules
parse_rules-texts [] h = refl
parse_rules-texts (rule ∷ rules) h = cc (parse_rule-rule_text rule h.0, parse_rules-texts rules h.1)

rule_text-Lacks : (rule : Rule) → IsPlain rule → Lacks comma (rule_text rule)
unfolding rule_text
rule_text-Lacks ([], level) h = h.level_lacks
rule_text-Lacks (c ∷ pattern, level) h =
    All-append (λ d. (d == comma) ≡ false) (c ∷ pattern) (at_sign ∷ level) h.pattern_lacks
      (refl, h.level_lacks)

rule_text-ne-nil : (rule : Rule) → IsPlain rule → rule_text rule ≢ []
unfolding rule_text
rule_text-ne-nil ([], level) h = h.named
rule_text-ne-nil (c ∷ pattern, level) h = λ e. cc e

texts-AreItems : (policy : LogPolicy) → All IsPlain policy → AreItems comma (texts policy)
texts-AreItems [] h = tt
texts-AreItems (rule ∷ []) h = (rule_text-Lacks rule h.0, rule_text-ne-nil rule h.0)
texts-AreItems (rule ∷ next ∷ rules) h =
    (rule_text-Lacks rule h.0, texts-AreItems (next ∷ rules) h.1)

-- What is printed are the texts of the rules with commas between them.
rules_text-join :
    (last_empty : Bool) (rule : Rule) (rules : LogPolicy)
    → rules_text last_empty (rule ∷ rules)
      ≡ join (texts (closed_from last_empty (rule ∷ rules))) (comma ∷ [])
unfolding rules_text join rule_text
rules_text-join last_empty ([], level) [] = append-nil level
rules_text-join last_empty (c ∷ pattern, level) [] = refl
rules_text-join last_empty rule (next ∷ rules) = cc (rules_text-join (is_empty rule.0) next rules)

log_policy_to_string-join :
    (policy : LogPolicy) → log_policy_to_string policy ≡ join (texts (closed policy)) (comma ∷ [])
unfolding log_policy_to_string
log_policy_to_string-join [] = unfold join rule_text in refl
log_policy_to_string-join (rule ∷ rules) = rules_text-join false rule rules

default_rule-IsPlain : IsPlain default_rule
default_rule-IsPlain = record {
  pattern_lacks = tt;
  level_lacks = ground arith;
  no_at = ground arith;
  named = λ e. cc e;
}

closed-IsPlain :
    (last_empty : Bool) (policy : LogPolicy)
    → All IsPlain policy
    → All IsPlain (closed_from last_empty policy)
closed-IsPlain true [] h = tt
closed-IsPlain false [] h = (default_rule-IsPlain, tt)
closed-IsPlain last_empty (rule ∷ rules) h = (h.0, closed-IsPlain (is_empty rule.0) rules h.1)

get_log_level-closed :
    (last_empty : Bool) (policy : LogPolicy) (file_name : Chars)
    → get_log_level (closed_from last_empty policy) file_name ≡ get_log_level policy file_name
unfolding get_log_level starts_with log_level_from_string equal_ignoring_case lower
get_log_level-closed true [] file_name = refl
get_log_level-closed false [] [] = refl
get_log_level-closed false [] (c ∷ file_name) = refl
get_log_level-closed last_empty ((pattern, level) ∷ rules) file_name =
    cc (get_log_level-closed (is_empty pattern) rules file_name)

-- A log policy that `logPolicyToString` prints is read back by `logPolicyFromString`, with a rule for
-- NOTICE at its end where the last rule has a pattern, and the policy that is read back gives every file
-- the same level, and aborts for the same files. (No pattern has a comma; a level has no comma and no `@`,
-- and is not empty.)
pub log_policy_from_string-log_policy_to_string :
    (policy : LogPolicy)
    → All IsPlain policy
    → (log_policy_from_string (log_policy_to_string policy) ≡ some (closed policy))
      × ((file_name : Chars)
          → get_log_level (closed policy) file_name ≡ get_log_level policy file_name)
unfolding log_policy_from_string
log_policy_from_string-log_policy_to_string policy h =
    let h' = closed-IsPlain false policy h in
    (
      cc (
        log_policy_to_string-join policy,
        split-join comma (texts (closed policy)) (texts-AreItems (closed policy) h'),
        parse_rules-texts (closed policy) h',
      ),
      get_log_level-closed false policy,
    )
