-- ===== src/Config/Load/Chosen.antt =====
-- What a configuration that `Config::load` of src/config.rs returns looks like.
use postfix_ratelimitd.Base.{
  ◌≡◌, ◌≢◌, Option, List, [], none, some, ok, err, inl, inr, arith, All, ℕ_discrete, Outcome-cases,
  Option-cases,
}
use postfix_ratelimitd.Base.Text.{Text}
use postfix_ratelimitd.Config.Window.{Window}
use postfix_ratelimitd.Config.Plan.{new}
use postfix_ratelimitd.Config.Redis.{RedisApi}
use postfix_ratelimitd.Config.Rules.{
  RegexApi, RawSaslLimitRule, count_default, Compiled, compile_rules, nothing_compiled, first_match,
}
use postfix_ratelimitd.Config.Rules.Valid.{IsValidRule}
use postfix_ratelimitd.Config.Rules.Choice.{
  choose, default_windows, compile_rules-choose, default_windows-counted,
}
use postfix_ratelimitd.Config.Load.{
  RawConfig, RawRedisConfig, raw_config, Loaded, returned, panicked, Config, Files, connection,
  compile_sasl, finish, load_raw, load, plan_for,
}

module _ (R : RedisApi) (X : RegexApi) where
  abbrev pub IsAccepted : Loaded (Config R X) → Type 0
  IsAccepted (returned (ok config)) = Unit {0}
  IsAccepted (returned (err e)) = ⊥
  IsAccepted panicked = ⊥

  -- No password file, or one that can be read beside a URL without a password.
  abbrev pub IsPasswordUsable : Files R X → R.Settings → Option Text → Type 0
  IsPasswordUsable files settings none = Unit {0}
  IsPasswordUsable files settings (some path) =
      (R.password settings ≡ none)
      × ((password : Text) × (files.read_to_string path ≡ some password))

  -- The URL is one, and the password is given one way only.
  abbrev pub IsConnectable : Files R X → RawRedisConfig → Type 0
  IsConnectable files redis =
      (info : R.Info) × (R.parse_url redis.url ≡ some info)
      × IsPasswordUsable files (R.set_db redis.db (R.redis_settings info)) redis.password_file

  -- What the operator's file must satisfy.
  pub record IsValidConfig (files : Files R X) (raw : RawConfig) : Type 0 where
    pub connects : IsConnectable files raw.redis
    pub one_default : count_default raw.sasl_limits ≡ 1
    pub rules : All (IsValidRule X) raw.sasl_limits
    pub sockets : raw.server.control_socket ≢ some raw.server.socket

  -- Once the entries compile, there is a default plan.
  compiled_default :
      (rules : List RawSaslLimitRule) (c : Compiled X)
      → compile_sasl R X rules ≡ ok c
      → (count_default rules ≡ 1)
        × (compile_rules X 0 rules (nothing_compiled X) ≡ ok c)
        × ((fallback : List Window) × (c.default_plan ≡ some (new fallback)))
  unfolding compile_sasl
  compiled_default rules c h = elim (ℕ_discrete (count_default rules) 1) [
    | no e ↦ absurd ground (arith, e)
    | yes e ↦
        let counted = default_windows-counted X rules (ground (arith, e)) in
        let chosen =
          compile_rules-choose X 0 rules (nothing_compiled X) c ground (arith, e) [] [] in
        (e, ground (arith, e), (counted.0, ground (arith, chosen.1, counted.1)))
  ]

  load_raw-returns : (files : Files R X) (raw : RawConfig) → load_raw R X files raw ≢ panicked
  unfolding load_raw finish
  load_raw-returns files raw p = elim (Outcome-cases (connection R X files raw.redis)) [
    | inr (x, e) ↦ ground (arith, e)
    | inl (info, e) ↦ elim (Outcome-cases (compile_sasl R X raw.sasl_limits)) [
      | inr (x, f) ↦ ground (arith, e, f)
      | inl (c, f) ↦
          let compiled = compiled_default raw.sasl_limits c f in ground (arith, compiled.2.1, e, f)
    ]
  ]

  -- Loading a file returns a configuration or an error, whatever the file holds: the `expect` on the
  -- default plan never panics.
  pub load-returns : (files : Files R X) (path : Text) → load R X files path ≢ panicked
  unfolding load
  load-returns files path p = elim (Option-cases (files.read_to_string path)) [
    | inl e ↦ ground (arith, e)
    | inr (text, e) ↦ elim (Option-cases (files.from_str text)) [
      | inl f ↦ ground (arith, e, f)
      | inr (file, f) ↦ ground (arith, load_raw-returns files (raw_config file), e, f)
    ]
  ]

  -- Once a file is loaded, every user has the plan of the windows of the first `username` or `regex`
  -- entry that names the user, in the file's order, and otherwise that of the `default` entry's windows.
  pub load_raw-choose :
      (files : Files R X) (raw : RawConfig) (config : Config R X)
      → load_raw R X files raw ≡ returned (ok config)
      → (fallback : List Window) × (default_windows X raw.sasl_limits none ≡ some (new fallback))
        × ((user : Text) → plan_for R X config user ≡ new (choose X raw.sasl_limits fallback user))
  unfolding load_raw finish plan_for first_match
  load_raw-choose files raw config h = elim (Outcome-cases (connection R X files raw.redis)) [
    | inr (x, e) ↦ absurd ground (arith, e)
    | inl (info, e) ↦ elim (Outcome-cases (compile_sasl R X raw.sasl_limits)) [
      | inr (x, f) ↦ absurd ground (arith, e, f)
      | inl (c, f) ↦
          let compiled = compiled_default raw.sasl_limits c f in
          let fallback = compiled.2.0 in
          let is_default =
            (compile_rules-choose X 0 raw.sasl_limits (nothing_compiled X) c compiled.1 [] []).1 in
          (
            fallback,
            ground (arith, compiled.2.1, is_default),
            λ user.
                let chosen =
                  (compile_rules-choose X 0 raw.sasl_limits (nothing_compiled X) c compiled.1
                    fallback user).0 in
                ground (arith, chosen, compiled.2.1, e, f),
          )
    ]
  ]
