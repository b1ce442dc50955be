-- ===== src/UnitTests/Settings.antt =====
-- src/config.rs, `tests`: `load`, `window`, `default_config`, and stand-ins for the crates.
use postfix_ratelimitd.Base.{
  ℕ, ℤ, pos, Bool, true, false, ◌||◌, List, [], ◌∷◌, Option, none, some, ok, err, ◌==◌,
  if◌then◌else◌,
}
use postfix_ratelimitd.Base.Text.{Text, codes, text_eq}
use postfix_ratelimitd.Config.Window.{Duration, Window}
use postfix_ratelimitd.Config.Plan.{
  CheckPlan, new, position, raise_at, merge_window, plan_at, push_key, add_window, add_windows,
}
use postfix_ratelimitd.Config.Bucket.{bucket_size}
use postfix_ratelimitd.Config.Error.{ConfigError}
use postfix_ratelimitd.Config.Redis.{RedisApi}
use postfix_ratelimitd.Config.Rules.{
  RegexApi, RawSaslLimitRule, default, compile_rules, compile_rule, build_plan, validate_windows,
  count_default, is_default, first_match, matches,
}
use postfix_ratelimitd.Config.Load.{
  TomlConfig, Loaded, returned, panicked, Config, load_raw, load, raw_config, connection, plan_for,
}

abbrev strip_prefix : Text → Text → Option Text
strip_prefix [] text = some text
strip_prefix (c ∷ prefix) [] = none
strip_prefix (c ∷ prefix) (d ∷ text) =
    let rest = strip_prefix prefix text in if c == d then rest else none

abbrev ends_with : Text → Text → Bool
ends_with [] suffix = text_eq [] suffix
ends_with (c ∷ text) suffix = text_eq (c ∷ text) suffix || ends_with text suffix

abbrev before_at : Text → Text
before_at [] = []
before_at (c ∷ text) = let rest = before_at text in if c == 64 then [] else c ∷ rest

-- The two patterns that the tests use.
pub data Pattern : Type 0 where
  starts ends : Text → Pattern

abbrev pub alice_regex : Text
alice_regex = codes "^alice@"

abbrev pub contractor_regex : Text
contractor_regex = codes "@contractors\\.example\\.com$"

abbrev pub matched_by : Pattern → Text → Bool
matched_by (starts prefix) text = elim (strip_prefix prefix text) [
  | none ↦ false
  | some rest ↦ true
]
matched_by (ends suffix) text = ends_with text suffix

abbrev pub two_patterns : RegexApi
two_patterns = record {
  Regex = Pattern;
  compile = λ source.
      if text_eq source alice_regex
      then some (starts (codes "alice@"))
      else if text_eq source contractor_regex
      then some (ends (codes "@contractors.example.com"))
      else none;
  is_match = matched_by;
}

abbrev url_password : Text → Option Text
url_password [] = none
url_password (c ∷ rest) = if c == 58 then some (before_at rest) else none

abbrev parse_url : Text → Option (Text × (ℤ × Option Text))
parse_url url = elim (strip_prefix (codes "redis://") url) [
  | none ↦ none
  | some rest ↦ some (rest, (pos 0, url_password rest))
]

-- An address, a database and a password, as in `redis://:password@address`.
abbrev pub plain_redis : RedisApi
plain_redis = record {
  Info = Text × (ℤ × Option Text);
  Settings = ℤ × Option Text;
  parse_url = parse_url;
  redis_settings = λ info. info.1;
  set_redis_settings = λ settings info. (info.0, settings);
  set_db = λ db settings. (db, settings.1);
  password = λ settings. settings.1;
  set_password = λ password settings. (settings.0, some password);
  same_addr = λ a b. text_eq a.0 b.0;
  same_db = λ a b. true;
  same_username = λ a b. true;
  same_password = λ a b. true;
  same_protocol = λ a b. true;
}

abbrev pub Configuration : Type 0
Configuration = Config plain_redis two_patterns

abbrev config_path : Text
config_path = codes "/tmp/config"

abbrev pub password_path : Text
password_path = codes "/tmp/password"

-- `load` of the tests, with what stands in the password file that a test has written.
abbrev pub load_beside : Option Text → TomlConfig → Loaded Configuration
load_beside password toml =
    load plain_redis two_patterns
      (record {
        read_to_string = λ path.
            if text_eq path config_path
            then some []
            else if text_eq path password_path
            then password
            else none;
        from_str = λ text. some toml;
      })
      config_path

abbrev pub load_config : TomlConfig → Loaded Configuration
load_config = load_beside none

abbrev pub window : ℕ → Duration → Window
window count duration = record { count = count; duration = duration }

-- The settings that all tests but a few share.
abbrev pub with_rules : List RawSaslLimitRule → TomlConfig
with_rules sasl = record {
  url = codes "redis://127.0.0.1:6379";
  db = some (pos 1);
  password_file = none;
  key_prefix = none;
  socket = codes "/tmp/policy";
  on_redis_error = none;
  warn_on_unauthenticated = none;
  control_socket = none;
  sasl = sasl;
}

abbrev pub default_config : List Window → TomlConfig
default_config windows = with_rules (default (some windows) none ∷ [])

-- `matches!(load(toml), Err(..))`
abbrev pub is_error : (ConfigError → Bool) → Loaded Configuration → Bool
is_error test (returned (err e)) = test e
is_error test (returned (ok config)) = false
is_error test panicked = false

-- `expect`, and an assertion on the configuration
abbrev pub is_config : (Configuration → Bool) → Loaded Configuration → Bool
is_config test (returned (ok config)) = test config
is_config test (returned (err e)) = false
is_config test panicked = false

abbrev pub plan_of : Configuration → Text → CheckPlan
plan_of config user = plan_for plain_redis two_patterns config user

abbrev first : {A : Type 0} → (A → ℕ) → List A → Option ℕ
first f [] = none
first f (x ∷ xs) = some (f x)

abbrev is_number : ℕ → Option ℕ → Bool
is_number n none = false
is_number n (some m) = m == n

-- `config.plan_for(user).windows[0].limit == n`
abbrev pub first_limit_is : ℕ → Text → Configuration → Bool
first_limit_is n user config = is_number n (first (λ w. w.limit) (plan_of config user).windows)

-- What a run of a test computes.
unfoldable pub program : Unit {0}
unfolding load load_raw raw_config connection plan_for first_match matches compile_rules
    compile_rule build_plan validate_windows count_default is_default new add_windows add_window
    plan_at push_key position merge_window raise_at bucket_size text_eq
program = tt
