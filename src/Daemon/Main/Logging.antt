-- ===== src/Daemon/Main/Logging.antt =====
-- src/bin/postfix-ratelimitd.rs: `init_logging` and `fatal`, and where their lines go.
use postfix_ratelimitd.Base.{Bool, List, [], ◌∷◌, Option, none, some, or_else, if◌then◌else◌}
use postfix_ratelimitd.Base.Text.{Text, codes}
use postfix_ratelimitd.Config.Error.{ConfigError}
use postfix_ratelimitd.Daemon.Startup.{Announcement, Fatal}
use postfix_ratelimitd.Daemon.Main.CommandLine.{LogTarget, stdout, syslog, Severity, info, LogApi}

-- What `main` says before its loop.
pub data Line : Type 0 where
  not_acknowledged syslog_unreachable : Line
  config_not_loaded : ConfigError → Line
  directory_unusable : Text → Line
  config_fine : Text → Line
  start_failed : Fatal → Line
  announced : Announcement → Line
  no_terminate_handler no_hangup_handler : Line

abbrev pub package_name : Text
package_name = codes "postfix-ratelimitd"

module _ (G : LogApi) where
  pub data Logger : Type 0 where
    env_logger : G.LevelFilter → Logger
    basic_logger : Text → G.LevelFilter → Logger

  -- The logger installed in the process, and the lines written so far, the newest first.
  pub record Console : Type 0 where
    pub logger : Option Logger
    pub logged : List Line
    pub standard_error : List Line
    pub standard_output : List Line

  abbrev pub silent : Console
  silent = record { logger = none; logged = []; standard_error = []; standard_output = [] }

  abbrev pub level_of : Logger → G.LevelFilter
  level_of (env_logger level) = level
  level_of (basic_logger ident level) = level

  -- A line is dropped without a logger, and where the logger's filter does not let it through.
  unfoldable pub log_line : Severity → Line → Console → Console
  log_line severity line c = elim c.logger [
    | none ↦ c
    | some logger ↦
        if G.enables (level_of logger) severity then record c { logged = line ∷ c.logged } else c
  ]

  -- The lines of the start, given the newest first.
  unfoldable pub log_announced : List Announcement → Console → Console
  unfolding log_line
  log_announced [] c = c
  log_announced (line ∷ before) c = log_line info (announced line) (log_announced before c)

  -- `init` and `set_boxed_logger`: a process has one logger, and a second panics (`none`).
  pub install : Logger → Console → Option Console
  install logger c = elim c.logger [
    | none ↦ some (record c { logger = some logger })
    | some before ↦ none
  ]

  -- `syslog_opens` is whether `syslog::unix` connects.
  unfoldable pub init_logging :
      LogTarget → Option Text → G.LevelFilter → Bool → Console → Option Console
  unfolding install
  init_logging stdout syslog_ident level syslog_opens c = install (env_logger level) c
  init_logging syslog syslog_ident level syslog_opens c =
      if syslog_opens
      then install (basic_logger (or_else syslog_ident package_name) level) c
      else install (env_logger level)
          (record c { standard_error = syslog_unreachable ∷ c.standard_error })
