-- ===== src/Daemon/System/Promise.antt =====
-- Config files under which src/bin/postfix-ratelimitd.rs limits a user.
use postfix_ratelimitd.Base.{ℕ, ◌≡◌, ◌∙◌, true, some, ok, All}
use postfix_ratelimitd.Base.Text.{Text}
use postfix_ratelimitd.Config.Redis.{RedisApi, IsRedisApi}
use postfix_ratelimitd.Config.Rules.{RegexApi}
use postfix_ratelimitd.Config.Load.{
  defer, TomlConfig, RawConfig, raw_config, returned, Config, Files, connection, load,
}
use postfix_ratelimitd.Config.Load.Origin.{
  load_raw-Origin, load-raw_config, LimitsUser, load_raw-Enforces,
}
use postfix_ratelimitd.Valkey.{Valkey, IsValkey}
use postfix_ratelimitd.Daemon.Reload.{same_redis_connection}
use postfix_ratelimitd.Daemon.System.{Occurrence, receive, answer, hangup, elapse}
use postfix_ratelimitd.Daemon.System.Guarded.{Limits}

module _ (R : RedisApi) (X : RegexApi) (V : Valkey) (home : R.Info) (key_prefix user : Text)
    (span limit : ℕ) where
  -- A file that names the database at `home` and the key prefix, turns mail away when the limiter
  -- fails, and limits the user in every entry that can apply to the user.
  pub record FileLimits (files : Files R X) (raw : RawConfig) : Type 0 where
    pub prefix_is : raw.redis.key_prefix ≡ key_prefix
    pub at_home :
        (info : R.Info)
        → connection R X files raw.redis ≡ ok info
        → same_redis_connection R X info home ≡ true
    pub closed : raw.server.on_redis_error ≡ defer
    pub limited : All (LimitsUser X user span limit) raw.sasl_limits

  -- Whatever file is at the path.
  abbrev pub PathLimits : Files R X → Text → Type 0
  PathLimits files path =
      (text : Text) (file : TomlConfig)
      → files.read_to_string path ≡ some text
      → files.from_str text ≡ some file
      → FileLimits files (raw_config file)

  -- A file that is loaded limits the user.
  abbrev pub IsLimiting : Occurrence R X V → Type 0
  IsLimiting (receive request) = Unit
  IsLimiting (answer index delivery) = Unit
  IsLimiting (hangup files path reach) = PathLimits files path
  IsLimiting (elapse seconds) = Unit

module _ (R : RedisApi) (X : RegexApi) (V : Valkey) (laws : IsValkey V) (redis : IsRedisApi R)
    (home : R.Info) (key_prefix user : Text) (span limit : ℕ) where
  pub load-Limits :
      (files : Files R X) (path : Text) (config : Config R X)
      → load R X files path ≡ returned (ok config)
      → PathLimits R X V home key_prefix user span limit files path
      → Limits R X V laws redis home key_prefix user span limit config
  load-Limits files path config h limits =
      let (text, file, there, parsed, loaded) = load-raw_config R X files path config h in
      let l = limits text file there parsed in
      let o = load_raw-Origin R X files (raw_config file) config loaded in
      let (shaped, enforced) =
        load_raw-Enforces X user span limit R files (raw_config file) config loaded l.limited in
      record {
        prefix_is = o.key_prefix ∙ l.prefix_is;
        at_home = l.at_home _ o.connects;
        closed = o.on_redis_error ∙ l.closed;
        shaped = shaped;
        enforced = enforced;
      }
