-- ===== src/Debug/Caching.antt =====
-- The cache of `isLogging` is never noticed.
use homa.Base.{
  ℕ, ◌≡◌, refl, inl, inr, Bool, Option, none, some, List, [], ◌∷◌, leb, ◌==◌, ==_iff, Bool-cases,
  Option-cases, maybe,
}
use homa.StringUtil.{Chars}
use homa.Debug.{LogLevel, level_number, LogPolicy, get_log_level, relative_file_name}
use homa.Debug.Logging.{Logger, set_log_policy, remember, is_logging}

-- What the threads ask of the logger, one after the other.
pub data Request : Type 0 where
  change : LogPolicy → Request
  ask : LogLevel → (file_name : ℕ) → Request

-- One more answer, where nothing aborts.
abbrev pub with_answer : Bool → Option (List Bool) → Option (List Bool)
with_answer a none = none
with_answer a (some answers) = some (a ∷ answers)

module _ (prefix : Chars) (chars : ℕ → Chars) where
  -- The level of a file by a policy, with no cache.
  abbrev pub verbosity : LogPolicy → ℕ → Option LogLevel
  verbosity policy file_name = get_log_level policy (relative_file_name prefix (chars file_name))

  -- The answers of the logger.
  unfoldable pub run : List Request → Logger → Option (List Bool)
  run [] s = some []
  run (change policy ∷ rs) s = run rs (set_log_policy policy s)
  run (ask level file_name ∷ rs) s =
      maybe none (λ r. with_answer r.0 (run rs r.1)) (is_logging prefix chars level file_name s)

  -- The answers by the policy that was set last.
  unfoldable pub judge : List Request → LogPolicy → Option (List Bool)
  judge [] policy = some []
  judge (change new_policy ∷ rs) policy = judge rs new_policy
  judge (ask level file_name ∷ rs) policy =
      maybe none (λ v. with_answer (leb (level_number level) (level_number v)) (judge rs policy))
        (verbosity policy file_name)

  -- What is in the cache is right.
  abbrev pub IsCoherent : Logger → Type 0
  IsCoherent s =
      (p : ℕ) (v : LogLevel) → s.is_logging_cache p ≡ some v → verbosity s.log_policy p ≡ some v

  cached-IsCoherent :
      (s : Logger) (file_name : ℕ) (v : LogLevel)
      → IsCoherent s
      → verbosity s.log_policy file_name ≡ some v
      → IsCoherent (remember file_name v s)
  cached-IsCoherent s file_name v h e p w f = elim (Bool-cases (p == file_name)) [
    | inl same ↦ cc (same, (==_iff p file_name).0 same, e, f)
    | inr other ↦ h p w (cc (other, f))
  ]

  -- However policies are set and files are asked for, `isLogging` answers every time what the policy that
  -- was set last says of the file, and aborts exactly when that policy has an invalid level there. (The
  -- cache holds nothing that the policy does not say, as when it is empty.)
  pub run-judge : (rs : List Request) (s : Logger) → IsCoherent s → run rs s ≡ judge rs s.log_policy
  unfolding run judge set_log_policy is_logging
  run-judge [] s h = refl
  run-judge (change policy ∷ rs) s h = run-judge rs (set_log_policy policy s) (λ p v e. cc e)
  run-judge (ask level file_name ∷ rs) s h = elim (Option-cases (s.is_logging_cache file_name)) [
    | inr (v, e) ↦ cc (e, h file_name v e, run-judge rs s h)
    | inl e ↦ elim (Option-cases (verbosity s.log_policy file_name)) [
      | inl f ↦ cc (e, f)
      | inr (v, f) ↦
          cc (e, f, run-judge rs (remember file_name v s) (cached-IsCoherent s file_name v h f))
    ]
  ]
