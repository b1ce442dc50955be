-- ===== src/Daemon/Main/Start.antt =====
-- How a run of `main` of src/bin/postfix-ratelimitd.rs begins: refused, ended by clap, or with a logger.
use postfix_ratelimitd.Base.{
  ℕ, ◌≡◌, refl, ap, ◌∙◌, inl, inr, Bool, true, false, ◌&&◌, [], ◌∷◌, Option, some, or_else, ok, err,
  if◌then◌else◌, is_none, Bool-cases, Outcome-cases,
}
use postfix_ratelimitd.Base.Text.{Text}
use postfix_ratelimitd.Config.Redis.{RedisApi}
use postfix_ratelimitd.Config.Rules.{RegexApi}
use postfix_ratelimitd.Daemon.Startup.{Host}
use postfix_ratelimitd.Daemon.Main.CommandLine.{
  LogTarget, stdout, syslog, LogApi, Arguments, Cli, parsed,
}
use postfix_ratelimitd.Daemon.Main.Logging.{
  Logger, env_logger, basic_logger, package_name, not_acknowledged, Console, silent, init_logging,
}
use postfix_ratelimitd.Daemon.Main.{
  integration_test_acknowledgment_env_var, failure, Surroundings, exited, launch_logged, run_logged,
  run_parsed, main,
}

module _ (G : LogApi) where
  -- The logger that the command line asks for, or the other one where syslog cannot be reached.
  abbrev pub chosen_logger : LogTarget → Option Text → G.LevelFilter → Bool → Logger G
  chosen_logger stdout ident level syslog_opens = env_logger level
  chosen_logger syslog ident level syslog_opens =
      if syslog_opens then basic_logger (or_else ident package_name) level else env_logger level

  -- A console with this logger and no line but perhaps on standard error.
  pub record IsFresh (logger : Logger G) (c : Console G) : Type 0 where
    pub installed : c.logger ≡ some logger
    pub nothing_logged : c.logged ≡ []
    pub nothing_printed : c.standard_output ≡ []

  init_logging-IsFresh :
      (target : LogTarget) (ident : Option Text) (level : G.LevelFilter) (syslog_opens : Bool)
      → (c : Console G) × (init_logging G target ident level syslog_opens (silent G) ≡ some c)
        × IsFresh (chosen_logger target ident level syslog_opens) c
  unfolding init_logging
  init_logging-IsFresh stdout ident level syslog_opens =
      (_, refl, record { installed = refl; nothing_logged = refl; nothing_printed = refl })
  init_logging-IsFresh syslog ident level true =
      (_, refl, record { installed = refl; nothing_logged = refl; nothing_printed = refl })
  init_logging-IsFresh syslog ident level false =
      (_, refl, record { installed = refl; nothing_logged = refl; nothing_printed = refl })

module _ (G : LogApi) (R : RedisApi) (X : RegexApi) (w : Surroundings G R X) where
  -- A build for the integration tests that nobody has acknowledged
  abbrev pub is_refused : Bool
  is_refused = w.integration_tests && is_none (w.variable integration_test_acknowledgment_env_var)

  abbrev pub logger_of : Cli G → Logger G
  logger_of cli = chosen_logger G cli.log_target cli.syslog_ident cli.log_level w.syslog_opens

  module _ (host : Host) where
    pub data Start : Type 0 where
      refused :
          is_refused ≡ true
          → main G R X w host
            ≡ (exited failure, record (silent G) { standard_error = not_acknowledged ∷ [] }, host)
          → Start
      ended_by_clap :
          (code : ℕ)
          → w.arguments ≡ err code
          → main G R X w host ≡ (exited code, silent G, host)
          → Start
      logged :
          (a : Arguments G) (c : Console G)
          → w.arguments ≡ ok a
          → IsFresh G (logger_of (parsed G a)) c
          → main G R X w host ≡ launch_logged G R X w (parsed G a) c host
          → Start

    run_logged-launches :
        (cli : Cli G)
        → (c : Console G) × IsFresh G (logger_of cli) c
          × (run_logged G R X w cli host ≡ launch_logged G R X w cli c host)
    unfolding run_logged
    run_logged-launches cli =
        let (c, started, fresh) =
          init_logging-IsFresh G cli.log_target cli.syslog_ident cli.log_level w.syslog_opens in
        (c, fresh, rw (started, run_logged) refl)

    pub main-Start : Start
    unfolding main run_parsed
    main-Start = elim (Bool-cases is_refused) [
      | inl e ↦ refused e (rw (e, main) refl)
      | inr e ↦ elim (Outcome-cases w.arguments) [
        | inr (code, f) ↦
            ended_by_clap code f (rw (e, main) (ap (λ o. run_parsed G R X w o host) f))
        | inl (a, f) ↦
            let (c, fresh, launches) = run_logged-launches (parsed G a) in
            logged a c f fresh (rw (e, main) (ap (λ o. run_parsed G R X w o host) f ∙ launches))
      ]
    ]
