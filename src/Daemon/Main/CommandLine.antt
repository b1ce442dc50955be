-- ===== src/Daemon/Main/CommandLine.antt =====
-- src/bin/postfix-ratelimitd.rs: `LogTarget` and `Cli`, with the defaults that the `arg` attributes
-- give.
use postfix_ratelimitd.Base.{Bool, Option, or_else}
use postfix_ratelimitd.Base.Text.{Text}
use postfix_ratelimitd.Config.Load.{default_config_path}

pub data LogTarget : Type 0 where
  stdout syslog : LogTarget

-- The severities of the lines that `main` logs.
pub data Severity : Type 0 where
  error info : Severity

-- The log crate: its filters, the one called `Info`, and what a filter lets through.
pub record LogApi : Type 1 where
  pub LevelFilter : Type 0
  pub info : LevelFilter
  pub enables : LevelFilter → Severity → Bool

module _ (G : LogApi) where
  -- The options as the clap crate reads them from the command line.
  pub record Arguments : Type 0 where
    pub config : Option Text
    pub check_config : Bool
    pub log_target : Option LogTarget
    pub syslog_ident : Option Text
    pub log_level : Option G.LevelFilter

  pub record Cli : Type 0 where
    pub config : Text
    pub check_config : Bool
    pub log_target : LogTarget
    pub syslog_ident : Option Text
    pub log_level : G.LevelFilter

  unfoldable pub parsed : Arguments → Cli
  parsed arguments = record {
    config = or_else arguments.config default_config_path;
    check_config = arguments.check_config;
    log_target = or_else arguments.log_target stdout;
    syslog_ident = arguments.syslog_ident;
    log_level = or_else arguments.log_level G.info;
  }
