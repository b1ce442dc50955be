-- ===== src/Config/Load.antt =====
-- src/config.rs: the sections of the config file, `Config`, `Config::load` and `Config::plan_for`.
pub mod Chosen
pub mod Origin
use postfix_ratelimitd.Base.{
  ℕ, ℤ, pos, Bool, true, false, not, List, [], ◌∷◌, Option, none, some, Outcome, ok, err, ◌>>=◌,
  ◌==◌, ◌||◌, if◌then◌else◌, or_else,
}
use postfix_ratelimitd.Base.Text.{Text, text_eq, codes}
use postfix_ratelimitd.Config.Plan.{CheckPlan}
use postfix_ratelimitd.Config.Error.{
  ConfigError, read, parse, read_password_file, bad_redis_url, ambiguous_password,
  control_socket_same_as_socket, default_count,
}
use postfix_ratelimitd.Config.Redis.{RedisApi}
use postfix_ratelimitd.Config.Rules.{
  RegexApi, RawSaslLimitRule, count_default, SaslLimitRule, Compiled, compile_rules,
  nothing_compiled, first_match,
}

pub data FailureAction : Type 0 where
  defer permit : FailureAction

-- The config file as the toml crate reads it: a key that may be omitted is an option.
pub record TomlConfig : Type 0 where
  pub url : Text
  pub db : Option ℤ
  pub password_file : Option Text
  pub key_prefix : Option Text
  pub socket : Text
  pub on_redis_error : Option FailureAction
  pub warn_on_unauthenticated : Option Bool
  pub control_socket : Option Text
  pub sasl : List RawSaslLimitRule

-- The `[redis]` section.
pub record RawRedisConfig : Type 0 where
  pub url : Text
  pub db : ℤ
  pub password_file : Option Text
  pub key_prefix : Text

-- The `[server]` section.
pub record RawServerConfig : Type 0 where
  pub socket : Text
  pub on_redis_error : FailureAction
  pub warn_on_unauthenticated : Bool
  pub control_socket : Option Text

pub record RawConfig : Type 0 where
  pub redis : RawRedisConfig
  pub server : RawServerConfig
  pub sasl_limits : List RawSaslLimitRule

abbrev pub default_config_path : Text
default_config_path = codes "/etc/postfix-ratelimitd/config.toml"

abbrev pub default_key_prefix : Text
default_key_prefix = codes "postfix-ratelimitd"

abbrev pub default_db : ℤ
default_db = pos 0

abbrev pub default_redis_error_action : FailureAction
default_redis_error_action = defer

abbrev pub default_warn_on_unauthenticated : Bool
default_warn_on_unauthenticated = true

-- What the `serde` attributes fill in.
unfoldable pub raw_config : TomlConfig → RawConfig
raw_config t = record {
  redis = record {
    url = t.url;
    db = or_else t.db default_db;
    password_file = t.password_file;
    key_prefix = or_else t.key_prefix default_key_prefix;
  };
  server = record {
    socket = t.socket;
    on_redis_error = or_else t.on_redis_error default_redis_error_action;
    warn_on_unauthenticated = or_else t.warn_on_unauthenticated default_warn_on_unauthenticated;
    control_socket = t.control_socket;
  };
  sasl_limits = t.sasl;
}

-- Drops the newlines and carriage returns at the end: `trim_end_matches(['\n', '\r'])`.
pub trim_end_lines : Text → Text
trim_end_lines [] = []
trim_end_lines (c ∷ rest) =
    let trimmed = trim_end_lines rest in
    elim trimmed [ [] ↦ if c == 10 || c == 13 then [] else c ∷ [] | d ∷ ds ↦ c ∷ d ∷ ds ]

pub same_path : Option Text → Text → Bool
same_path none path = false
same_path (some other) path = text_eq other path

-- How `Config::load` ends: its result, or a panic of `expect`.
pub data Loaded (A : Type 0) : Type 0 where
  returned : Outcome ConfigError A → Loaded A
  panicked : Loaded A

module _ (R : RedisApi) (X : RegexApi) where
  pub record Config : Type 0 where
    pub redis_connection_info : R.Info
    pub redis_key_prefix : Text
    pub on_redis_error : FailureAction
    pub warn_on_unauthenticated : Bool
    pub socket : Text
    pub control_socket : Option Text
    pub sasl_limits : List (SaslLimitRule X)
    pub default_plan : CheckPlan

  -- The files that can be read, and the toml crate.
  pub record Files : Type 0 where
    pub read_to_string : Text → Option Text
    pub from_str : Text → Option TomlConfig

  pub with_password : Files → Option Text → R.Settings → Outcome ConfigError (R.Settings)
  unfolding trim_end_lines
  with_password files none settings = ok settings
  with_password files (some path) settings = elim (R.password settings) [
    | some _ ↦ err ambiguous_password
    | none ↦ elim (files.read_to_string path) [
      | none ↦ err (read_password_file path)
      | some password ↦ ok (R.set_password (trim_end_lines password) settings)
    ]
  ]

  -- The connection to use: the URL's, with the file's database and password.
  unfoldable pub connection : Files → RawRedisConfig → Outcome ConfigError (R.Info)
  unfolding with_password
  connection files redis = elim (R.parse_url redis.url) [
    | none ↦ err (bad_redis_url redis.url)
    | some info ↦ do
      settings ← with_password files redis.password_file (R.set_db redis.db (R.redis_settings info))
      ok (R.set_redis_settings settings info)
  ]

  -- The `sasl` entries, once there is exactly one default.
  pub compile_sasl : List RawSaslLimitRule → Outcome ConfigError (Compiled X)
  compile_sasl rules =
      if not (count_default rules == 1)
      then err (default_count (count_default rules))
      else compile_rules X 0 rules (nothing_compiled X)

  -- The end of `load`: the sockets' paths, and the record.
  pub finish : RawConfig → R.Info → Compiled X → Loaded Config
  unfolding same_path
  finish raw info compiled =
      if same_path raw.server.control_socket raw.server.socket
      then returned (err control_socket_same_as_socket)
      else elim compiled.default_plan [
        | none ↦ panicked
        | some plan ↦ returned (
            ok (record {
              redis_connection_info = info;
              redis_key_prefix = raw.redis.key_prefix;
              on_redis_error = raw.server.on_redis_error;
              warn_on_unauthenticated = raw.server.warn_on_unauthenticated;
              socket = raw.server.socket;
              control_socket = raw.server.control_socket;
              sasl_limits = compiled.sasl_limits;
              default_plan = plan;
            }))
      ]

  -- `load` on the file's contents.
  unfoldable pub load_raw : Files → RawConfig → Loaded Config
  unfolding connection compile_sasl finish
  load_raw files raw = elim (connection files raw.redis) [
    | err e ↦ returned (err e)
    | ok info ↦ elim (compile_sasl raw.sasl_limits) [
      | err e ↦ returned (err e)
      | ok compiled ↦ finish raw info compiled
    ]
  ]

  unfoldable pub load : Files → Text → Loaded Config
  unfolding load_raw raw_config
  load files path = elim (files.read_to_string path) [
    | none ↦ returned (err (read path))
    | some text ↦ elim (files.from_str text) [
      | none ↦ returned (err (parse path))
      | some file ↦ load_raw files (raw_config file)
    ]
  ]

  unfoldable pub plan_for : Config → Text → CheckPlan
  plan_for config sasl_username = first_match X config.sasl_limits config.default_plan sasl_username
