-- ===== src/Config/Load/Origin.antt =====
-- What a configuration that `Config::load` of src/config.rs returns takes from its file.
use mathlib.Core.Option.{some-injective}
use postfix_ratelimitd.Base.{
  ◌≡◌, ◌⊎◌, sym, true, false, List, [], ◌∷◌, Option, none, some, ok, inl, inr, arith, All, subst,
  Bool-cases, Option-cases, Outcome-cases, ℕ,
}
use postfix_ratelimitd.Base.Text.{Text, text_eq}
use postfix_ratelimitd.Config.Window.{Window}
use postfix_ratelimitd.Config.Plan.{CheckPlan, new}
use postfix_ratelimitd.Config.Plan.Shape.{IsWellFormed, new-IsWellFormed}
use postfix_ratelimitd.Config.Plan.Spans.{Configures, Enforces, new-Enforces}
use postfix_ratelimitd.Config.Redis.{RedisApi}
use postfix_ratelimitd.Config.Rules.{RegexApi, RawSaslLimitRule, is_default}
use postfix_ratelimitd.Config.Rules.Choice.{names_user, windows_of, choose, default_windows}
use postfix_ratelimitd.Config.Load.{
  TomlConfig, RawConfig, raw_config, same_path, returned, Config, Files, connection, compile_sasl,
  finish, load_raw, load, plan_for,
}
use postfix_ratelimitd.Config.Load.Chosen.{load_raw-choose}

module _ (R : RedisApi) (X : RegexApi) (files : Files R X) where
  pub record Origin (raw : RawConfig) (config : Config R X) : Type 0 where
    pub connects : connection R X files raw.redis ≡ ok config.redis_connection_info
    pub key_prefix : config.redis_key_prefix ≡ raw.redis.key_prefix
    pub on_redis_error : config.on_redis_error ≡ raw.server.on_redis_error
    pub sockets : same_path config.control_socket config.socket ≡ false

  pub load_raw-Origin :
      (raw : RawConfig) (config : Config R X)
      → load_raw R X files raw ≡ returned (ok config)
      → Origin raw config
  unfolding load_raw finish
  load_raw-Origin raw config h = elim (Outcome-cases (connection R X files raw.redis)) [
    | inr (x, e) ↦ absurd ground (arith, e)
    | inl (info, e) ↦ elim (Outcome-cases (compile_sasl R X raw.sasl_limits)) [
      | inr (x, f) ↦ absurd ground (arith, e, f)
      | inl (c, f) ↦ elim (Bool-cases (same_path raw.server.control_socket raw.server.socket)) [
        | inl g ↦ absurd ground (arith, e, f, g)
        | inr g ↦ elim (Option-cases c.default_plan) [
          | inl k ↦ absurd ground (arith, e, f, g, k)
          | inr (plan, k) ↦ record {
            connects = ground (arith, e, f, g, k, h);
            key_prefix = ground (arith, e, f, g, k, h);
            on_redis_error = ground (arith, e, f, g, k, h);
            sockets = ground (arith, e, f, g, k, h);
          }
        ]
      ]
    ]
  ]

  -- A configuration that is loaded comes from a file that is there and parses.
  pub load-raw_config :
      (path : Text) (config : Config R X)
      → load R X files path ≡ returned (ok config)
      → (text : Text) × (file : TomlConfig) × (files.read_to_string path ≡ some text)
        × (files.from_str text ≡ some file)
        × (load_raw R X files (raw_config file) ≡ returned (ok config))
  unfolding load
  load-raw_config path config h = elim (Option-cases (files.read_to_string path)) [
    | inl e ↦ absurd ground (arith, e)
    | inr (text, e) ↦ elim (Option-cases (files.from_str text)) [
      | inl f ↦ absurd ground (arith, e, f)
      | inr (file, f) ↦ (text, file, e, f, ground (arith, e, f, h))
    ]
  ]

  -- The two sockets of a configuration that is loaded have different paths.
  pub load-apart :
      (path : Text) (config : Config R X)
      → load R X files path ≡ returned (ok config)
      → (c : Text) → config.control_socket ≡ some c
      → text_eq c config.socket ≡ false
  unfolding same_path
  load-apart path config h c named =
      let (text, file, here, reads, loaded) = load-raw_config path config h in
      let origin = load_raw-Origin (raw_config file) config loaded in
      subst (λ p. same_path p config.socket ≡ false) named origin.sockets

module _ (X : RegexApi) (user : Text) (span limit : ℕ) where
  -- An entry that may be the one for the user has a window of `span` seconds no less strict than `limit`.
  abbrev pub LimitsUser : RawSaslLimitRule → Type 0
  LimitsUser rule =
      (names_user X rule user ≡ true) ⊎ (is_default rule ≡ true)
      → Configures span limit (windows_of X rule)

  choose-Enforces :
      (rules : List RawSaslLimitRule) (fallback : List Window)
      → All LimitsUser rules
      → Enforces span limit (new fallback).windows
      → Enforces span limit (new (choose X rules fallback user)).windows
  choose-Enforces [] fallback h d = d
  choose-Enforces (rule ∷ rest) fallback h d = elim (Bool-cases (names_user X rule user)) [
    | inl e ↦ rw e (new-Enforces span limit (windows_of X rule) (h.0 (inl e)))
    | inr e ↦ rw e (choose-Enforces rest fallback h.1 d)
  ]

  default-Enforces :
      (rules : List RawSaslLimitRule) (before : Option CheckPlan) (plan : CheckPlan)
      → All LimitsUser rules
      → ((p : CheckPlan) → before ≡ some p → Enforces span limit p.windows)
      → default_windows X rules before ≡ some plan
      → Enforces span limit plan.windows
  default-Enforces [] before plan h d e = d plan e
  default-Enforces (rule ∷ rest) before plan h d e = elim (Bool-cases (is_default rule)) [
    | inl f ↦
        default-Enforces rest (some (new (windows_of X rule))) plan h.1
          (λ p same.
            subst (λ q. Enforces span limit q.windows)
              (some-injective (new (windows_of X rule)) p same)
              (new-Enforces span limit (windows_of X rule) (h.0 (inr f))))
          ground (arith, e, f)
    | inr f ↦ default-Enforces rest before plan h.1 d ground (arith, e, f)
  ]

  -- Under a file whose every entry for the user limits the user, so does the plan, and the plans of all
  -- users are well formed.
  pub load_raw-Enforces :
      (R : RedisApi) (files : Files R X) (raw : RawConfig) (config : Config R X)
      → load_raw R X files raw ≡ returned (ok config)
      → All LimitsUser raw.sasl_limits
      → ((other : Text) → IsWellFormed (plan_for R X config other))
        × Enforces span limit (plan_for R X config user).windows
  load_raw-Enforces R files raw config loaded h =
      let (fallback, is_default, chosen) = load_raw-choose R X files raw config loaded in
      (
        λ other.
            subst IsWellFormed (sym (chosen other))
              (new-IsWellFormed (choose X raw.sasl_limits fallback other)),
        subst (λ p. Enforces span limit p.windows) (sym (chosen user))
            (choose-Enforces raw.sasl_limits fallback h (
              default-Enforces raw.sasl_limits none (new fallback) h (λ p e. absurd (cc))
                is_default)),
      )
