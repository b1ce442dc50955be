-- ===== src/Config/Rules.antt =====
-- src/config.rs: the rules, their validation, and the choice of a plan.
pub mod Valid
pub mod Choice
use postfix_ratelimitd.Base.{
  ℕ, suc, ◌+◌, Bool, true, false, not, ◌||◌, List, [], ◌∷◌, ◌++◌, Option, none, some, Outcome, ok,
  err, ◌>>=◌, ◌>>◌, ◌==◌, if◌then◌else◌, is_empty,
}
use postfix_ratelimitd.Base.Text.{Text, text_eq}
use postfix_ratelimitd.Config.Window.{
  Duration, Window, shorter, min_window_duration, max_window_duration,
}
use postfix_ratelimitd.Config.Plan.{CheckPlan, new}
use postfix_ratelimitd.Config.Error.{
  ConfigError, bad_regex, empty_username, no_windows, windows_with_unrestricted,
  redundant_unrestricted_false, default_count, window_too_short, window_too_long,
}

-- The regex_lite crate.
pub record RegexApi : Type 1 where
  pub Regex : Type 0
  pub compile : Text → Option Regex
  pub is_match : Regex → Text → Bool

-- A `sasl` entry as written in the config file.
pub data RawSaslLimitRule : Type 0 where
  username : Text → Option (List Window) → Option Bool → RawSaslLimitRule
  regex : Text → Option (List Window) → Option Bool → RawSaslLimitRule
  default : Option (List Window) → Option Bool → RawSaslLimitRule

-- The loop of `validate_windows`.
pub validate_each : ℕ → List Window → Outcome ConfigError (Unit {0})
validate_each rule_index [] = ok tt
validate_each rule_index (window ∷ rest) =
    if not (window.duration.nanos == 0) || shorter window.duration min_window_duration
    then err (window_too_short rule_index window.duration)
    else if shorter max_window_duration window.duration
    then err (window_too_long rule_index window.duration)
    else validate_each rule_index rest

unfoldable pub validate_windows : ℕ → List Window → Outcome ConfigError (Unit {0})
unfolding validate_each
validate_windows rule_index windows =
    if is_empty windows then err (no_windows rule_index) else validate_each rule_index windows

unfoldable pub build_plan : ℕ → Option (List Window) → Option Bool → Outcome ConfigError CheckPlan
build_plan index none (some true) = ok (new [])
build_plan index (some _) (some true) = err (windows_with_unrestricted index)
build_plan index (some _) (some false) = err (redundant_unrestricted_false index)
build_plan index (some windows) none = do validate_windows index windows; ok (new windows)
build_plan index none (some false) = err (no_windows index)
build_plan index none none = err (no_windows index)

unfoldable pub is_default : RawSaslLimitRule → Bool
is_default (default windows unrestricted) = true
is_default _ = false

-- `iter().filter(is Default).count()`
unfoldable pub count_default : List RawSaslLimitRule → ℕ
unfolding is_default
count_default [] = 0
count_default (rule ∷ rest) =
    if is_default rule then suc (count_default rest) else count_default rest

module _ (X : RegexApi) where
  pub data SaslMatcher : Type 0 where
    username : Text → SaslMatcher
    regex : X.Regex → SaslMatcher

  pub record SaslLimitRule : Type 0 where
    pub matcher : SaslMatcher
    pub plan : CheckPlan

  pub matcher_matches : SaslMatcher → Text → Bool
  matcher_matches (SaslMatcher.username name) sasl_username = text_eq name sasl_username
  matcher_matches (SaslMatcher.regex compiled) sasl_username = X.is_match compiled sasl_username

  unfoldable pub matches : SaslLimitRule → Text → Bool
  unfolding matcher_matches
  matches rule sasl_username = matcher_matches rule.matcher sasl_username

  -- What the loop of `Config::load` has built so far.
  pub record Compiled : Type 0 where
    pub sasl_limits : List SaslLimitRule
    pub default_plan : Option CheckPlan

  pub compile_regex : ℕ → Text → Outcome ConfigError X.Regex
  compile_regex index pattern_text = elim (X.compile pattern_text) [
    | none ↦ err (bad_regex index)
    | some compiled ↦ ok compiled
  ]

  pub push_rule : Compiled → SaslMatcher → CheckPlan → Compiled
  push_rule c m p = record c {
    sasl_limits = c.sasl_limits ++ record { matcher = m; plan = p } ∷ [];
  }

  -- The loop's body.
  unfoldable pub compile_rule : ℕ → RawSaslLimitRule → Compiled → Outcome ConfigError Compiled
  unfolding compile_regex push_rule
  compile_rule index (RawSaslLimitRule.username name windows unrestricted) c =
      if is_empty name then err (empty_username index) else do
        plan ← build_plan index windows unrestricted
        ok (push_rule c (SaslMatcher.username name) plan)
  compile_rule index (RawSaslLimitRule.regex source windows unrestricted) c = do
    plan ← build_plan index windows unrestricted
    compiled ← compile_regex index source
    ok (push_rule c (SaslMatcher.regex compiled) plan)
  compile_rule index (default windows unrestricted) c = do
    plan ← build_plan index windows unrestricted
    ok (record c { default_plan = some plan })

  -- The loop, from entry `index` on.
  unfoldable pub compile_rules : ℕ → List RawSaslLimitRule → Compiled → Outcome ConfigError Compiled
  compile_rules index [] c = ok c
  compile_rules index (rule ∷ rest) c = do
    c' ← compile_rule index rule c
    compile_rules (index + 1) rest c'

  abbrev pub nothing_compiled : Compiled
  nothing_compiled = record { sasl_limits = []; default_plan = none }

  -- `iter().find(matches).map_or(default, plan)` of `Config::plan_for`
  unfoldable pub first_match : List SaslLimitRule → CheckPlan → Text → CheckPlan
  unfolding matches
  first_match [] fallback sasl_username = fallback
  first_match (rule ∷ rest) fallback sasl_username =
      if matches rule sasl_username then rule.plan else first_match rest fallback sasl_username
