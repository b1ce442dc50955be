-- ===== src/Examples/Running.antt =====
-- Runs of `main` of src/bin/postfix-ratelimitd.rs: a check of the config file, a start beside a process
-- that listens, a build for the integration tests, and a start that gets to the loop.
use postfix_ratelimitd.Base.{ℕ, ◌≡◌, refl, true, false, [], ◌∷◌, none, some, ok, leb, if◌then◌else◌}
use postfix_ratelimitd.Base.Text.{codes, text_eq}
use postfix_ratelimitd.Base.Decimal.{decimal}
use postfix_ratelimitd.Config.Load.{load_raw, load, raw_config, plan_for}
use postfix_ratelimitd.Config.Plan.{
  new, position, raise_at, merge_window, plan_at, push_key, add_window, add_windows,
}
use postfix_ratelimitd.Config.Bucket.{bucket_size}
use postfix_ratelimitd.Config.Rules.{
  compile_rules, compile_rule, build_plan, validate_windows, count_default,
}
use postfix_ratelimitd.Limiter.Connect.{connect_and_check}
use postfix_ratelimitd.Limiter.Support.{missing}
use postfix_ratelimitd.Daemon.Reload.{RuntimeState, initial_state}
use postfix_ratelimitd.Daemon.Startup.{absent, live, stale, listening, in_use, Host, startup}
use postfix_ratelimitd.Daemon.Startup.Launch.{launch, with_loaded, with_config, checked}
use postfix_ratelimitd.Daemon.Main.CommandLine.{LogApi, error, info, Arguments, parsed, syslog}
use postfix_ratelimitd.Daemon.Main.Logging.{
  start_failed, announced, log_announced, silent, env_logger, config_fine, syslog_unreachable,
  not_acknowledged, log_line, init_logging,
}
use postfix_ratelimitd.Daemon.Main.{Surroundings, exited, serving, main}
use postfix_ratelimitd.Daemon.Main.Safety.{main-keeps_live}
use postfix_ratelimitd.Daemon.Main.Ready.{IsServable, main-IsServable}
use postfix_ratelimitd.Examples.Settings.{simple_redis, literal, files, daemon_config}
use postfix_ratelimitd.Examples.Serving.{reachable}
use postfix_ratelimitd.Examples.Starting.{policy, admin, no_faults, host, in_run, admin_listens}

-- From OFF, 0, to TRACE, 5
abbrev pub simple_log : LogApi
simple_log = record {
  LevelFilter = ℕ;
  info = 3;
  enables = λ level severity. elim severity [ error ↦ leb 1 level | info ↦ leb 3 level ];
}

abbrev pub options : Arguments simple_log
options = record {
  config = some (codes "/etc/conf");
  check_config = false;
  log_target = some syslog;
  syslog_ident = none;
  log_level = none;
}

abbrev pub World : Type 0
World = Surroundings simple_log simple_redis literal

abbrev pub plain : World
plain = record {
  parent = in_run;
  pid = 7;
  integration_tests = false;
  variable = λ name. none;
  arguments = ok options;
  syslog_opens = true;
  files = files;
  reach = reachable;
  faults = λ path. no_faults;
  terminate_fails = false;
  hangup_fails = false;
}

abbrev checking : World
checking = record plain { arguments = ok (record options { check_config = true }) }

main-keeps_live_example : (main simple_log simple_redis literal plain host).2.node admin ≡ live 384
main-keeps_live_example =
    main-keeps_live simple_log simple_redis literal plain host admin 384 refl admin_listens

-- Another process listens on the control socket: the line is in the log, behind the one that announces
-- the policy socket.
refuses :
    ((main simple_log simple_redis literal plain host).0 ≡ exited 1)
    × ((main simple_log simple_redis literal plain host).1.logged
        ≡ start_failed (in_use admin) ∷ announced (listening policy) ∷ [])
unfolding main log_announced connect_and_check missing parsed init_logging launch with_loaded
    with_config startup load_raw load raw_config plan_for compile_rules compile_rule build_plan
    validate_windows count_default new add_windows add_window plan_at push_key position merge_window
    raise_at bucket_size text_eq log_line
refuses = (refl, refl)

-- Nobody listens there.
abbrev pub deserted : Host
deserted = record host { node = λ q. if text_eq q policy then stale 432 else absent }

abbrev pub state : RuntimeState simple_redis literal
state = initial_state simple_redis literal daemon_config

pub serves : (main simple_log simple_redis literal plain deserted).0 ≡ serving state
unfolding main log_announced connect_and_check missing parsed init_logging launch with_loaded
    with_config startup load_raw load raw_config plan_for compile_rules compile_rule build_plan
    validate_windows count_default new add_windows add_window plan_at push_key position merge_window
    raise_at bucket_size text_eq
serves = refl

main-IsServable_example :
    (a : Arguments simple_log) × (plain.arguments ≡ ok a)
    × IsServable simple_log simple_redis literal plain
        (parsed simple_log a).config
        deserted
        (main simple_log simple_redis literal plain deserted).2
        state
main-IsServable_example =
    main-IsServable simple_log simple_redis literal plain deserted state serves

-- The two directories are probed, and the line goes to standard output.
checks :
    ((main simple_log simple_redis literal checking host).0 ≡ exited 0)
    × ((main simple_log simple_redis literal checking host).1.standard_output
        ≡ config_fine (codes "/etc/conf") ∷ [])
unfolding main parsed init_logging launch with_loaded with_config checked load_raw load raw_config
    plan_for compile_rules compile_rule build_plan validate_windows count_default new add_windows
    add_window plan_at push_key position merge_window raise_at bucket_size text_eq decimal
checks = (refl, refl)

-- A build for the integration tests that nobody has acknowledged
abbrev testing : World
testing = record plain { integration_tests = true }

refused_build :
    main simple_log simple_redis literal testing host
    ≡ (exited 1, record (silent simple_log) { standard_error = not_acknowledged ∷ [] }, host)
unfolding main
refused_build = refl

-- Without syslog the log goes where `--log-target stdout` sends it.
falls_back :
    init_logging simple_log syslog none 3 false (silent simple_log)
    ≡ some (record (silent simple_log) {
      logger = some (env_logger 3);
      standard_error = syslog_unreachable ∷ [];
    })
unfolding init_logging
falls_back = refl
