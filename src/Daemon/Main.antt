-- ===== src/Daemon/Main.antt =====
-- src/bin/postfix-ratelimitd.rs: `main` from its first line to its loop, over the command line, the
-- log, the configuration, the startup and the signals; the children have its parts and what holds.
pub mod CommandLine
pub mod Logging
mod Start
pub mod Safety
pub mod Exit
pub mod Ready
pub mod Guarantee
use postfix_ratelimitd.Base.{
  ℕ, Bool, true, ◌&&◌, [], ◌∷◌, Option, none, some, Outcome, ok, err, if◌then◌else◌, is_none,
}
use postfix_ratelimitd.Base.Text.{Text, codes}
use postfix_ratelimitd.Config.Redis.{RedisApi}
use postfix_ratelimitd.Config.Rules.{RegexApi}
use postfix_ratelimitd.Config.Load.{Config, Files}
use postfix_ratelimitd.Limiter.Connect.{Reach}
use postfix_ratelimitd.Daemon.Reload.{RuntimeState, initial_state}
use postfix_ratelimitd.Daemon.Startup.{Host, Faults}
use postfix_ratelimitd.Daemon.Startup.Launch.{
  Launched, config_failed, check_failed, config_ok, crashed, started, launch,
}
use postfix_ratelimitd.Daemon.Main.CommandLine.{LogApi, Arguments, Cli, parsed, error}
use postfix_ratelimitd.Daemon.Main.Logging.{
  Line, not_acknowledged, config_not_loaded, directory_unusable, config_fine, start_failed,
  no_terminate_handler, no_hangup_handler, Console, silent, log_line, log_announced, init_logging,
}

abbrev pub integration_test_acknowledgment_env_var : Text
integration_test_acknowledgment_env_var = codes "POSTFIX_RATELIMITD_INTEGRATION_TEST_BUILD"

-- The exit codes `SUCCESS` and `FAILURE`
abbrev pub success : ℕ
success = 0

abbrev pub failure : ℕ
failure = 1

module _ (G : LogApi) (R : RedisApi) (X : RegexApi) where
  -- What `main` meets: the build, the environment, what clap makes of the command line (or the code
  -- that it exits with), the files, the servers and the system.
  pub record Surroundings : Type 0 where
    pub parent : Text → Option Text
    pub pid : ℕ
    pub integration_tests : Bool
    pub variable : Text → Option Text
    pub arguments : Outcome ℕ (Arguments G)
    pub syslog_opens : Bool
    pub files : Files R X
    pub reach : Reach
    pub faults : Text → Faults
    pub terminate_fails : Bool
    pub hangup_fails : Bool

  -- How `main` ends, or the state with which it enters its loop.
  pub data Ended : Type 0 where
    exited : ℕ → Ended
    panicked : Ended
    serving : RuntimeState R X → Ended

  -- `fatal`
  pub fatal : Line → Console G → Ended × Console G
  unfolding log_line
  fatal line c = (exited failure, log_line G error line c)

  -- The signal handlers, once the listeners are there.
  pub install_signals : Surroundings → Config R X → Console G → Ended × Console G
  unfolding fatal
  install_signals w config c =
      if w.terminate_fails
      then fatal no_terminate_handler c
      else if w.hangup_fails
      then fatal no_hangup_handler c
      else (serving (initial_state R X config), c)

  -- What `main` does about the result of the launch.
  pub conclude_launch : Surroundings → Text → Launched R X → Console G → Ended × Console G
  unfolding fatal install_signals log_announced
  conclude_launch w path crashed c = (panicked, c)
  conclude_launch w path (config_failed e) c = fatal (config_not_loaded e) c
  conclude_launch w path (check_failed socket) c = fatal (directory_unusable socket) c
  conclude_launch w path config_ok c =
      (exited success, record c { standard_output = config_fine path ∷ c.standard_output })
  conclude_launch w path (started config said (err e)) c =
      fatal (start_failed e) (log_announced G said c)
  conclude_launch w path (started config said (ok u)) c =
      install_signals w config (log_announced G said c)

  -- Behind `init_logging`
  pub launch_logged : Surroundings → Cli G → Console G → Host → Ended × Console G × Host
  unfolding conclude_launch launch
  launch_logged w cli c host =
      let launched =
        launch w.parent w.pid R X w.files cli.config cli.check_config w.reach w.faults host in
      let concluded = conclude_launch w cli.config launched.0 c in
      (concluded.0, concluded.1, launched.1)

  -- Behind `Cli::parse`
  pub run_logged : Surroundings → Cli G → Host → Ended × Console G × Host
  unfolding launch_logged init_logging
  run_logged w cli host =
      elim (init_logging G cli.log_target cli.syslog_ident cli.log_level w.syslog_opens
        (silent G)) [ none ↦ (panicked, silent G, host) | some c ↦ launch_logged w cli c host ]

  -- On what `Cli::parse` returns, or exits with
  pub run_parsed : Surroundings → Outcome ℕ (Arguments G) → Host → Ended × Console G × Host
  unfolding run_logged parsed
  run_parsed w (err code) host = (exited code, silent G, host)
  run_parsed w (ok arguments) host = run_logged w (parsed G arguments) host

  -- `main`, in a process that has logged nothing yet.
  unfoldable pub main : Surroundings → Host → Ended × Console G × Host
  unfolding run_parsed
  main w host =
      if w.integration_tests && is_none (w.variable integration_test_acknowledgment_env_var)
      then (exited failure, record (silent G) { standard_error = not_acknowledged ∷ [] }, host)
      else run_parsed w w.arguments host
