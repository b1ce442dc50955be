-- ===== src/Daemon/Main/Exit.antt =====
-- How `main` of src/bin/postfix-ratelimitd.rs ends before its loop, and what it has said by then.
use postfix_ratelimitd.Base.{
  ◌≡◌, ◌⊎◌, true, false, List, [], ◌∷◌, map, Outcome, none, if◌then◌else◌, some, ok, err, ℕ,
}
use postfix_ratelimitd.Base.Text.{Text}
use postfix_ratelimitd.Config.Redis.{RedisApi}
use postfix_ratelimitd.Config.Rules.{RegexApi}
use postfix_ratelimitd.Config.Load.{Config, returned, load}
use postfix_ratelimitd.Daemon.Startup.{Announcement, Host, Fatal, startup}
use postfix_ratelimitd.Daemon.Startup.Announced.{IsAnnounced}
use postfix_ratelimitd.Daemon.Startup.Result.{IsChecked}
use postfix_ratelimitd.Daemon.Main.CommandLine.{LogApi, info, Arguments, Cli, parsed}
use postfix_ratelimitd.Daemon.Main.Logging.{
  Line, config_not_loaded, directory_unusable, config_fine, start_failed, no_terminate_handler,
  no_hangup_handler, not_acknowledged, Console, announced,
}
use postfix_ratelimitd.Daemon.Main.{
  success, failure, Surroundings, Ended, exited, panicked, serving,
}
use postfix_ratelimitd.Daemon.Main.Start.{is_refused, logger_of, logged}

module _ (G : LogApi) where
  -- What a log that lets `info` through shows of the announcements, the newest first.
  abbrev pub shown : G.LevelFilter → List Announcement → List Line
  shown level said = if G.enables level info then map announced said else []

module _ (G : LogApi) (R : RedisApi) (X : RegexApi) (w : Surroundings G R X) (cli : Cli G)
    (host : Host) where
  -- The start with the configuration that was loaded, which ends like this.
  abbrev pub IsStarted : Config R X → Outcome Fatal (Unit {0}) → List Announcement → Type 0
  IsStarted config result said =
      (cli.check_config ≡ false)
      × (load R X w.files cli.config ≡ returned (ok config))
      × ((startup config.socket config.control_socket w.reach w.faults host).0 ≡ result)
      × IsAnnounced config.socket config.control_socket result said

  -- Which failure each line stands for, and what has been announced before it.
  abbrev pub IsCause : Line → List Announcement → Type 0
  IsCause (config_not_loaded e) said =
      (load R X w.files cli.config ≡ returned (err e)) × (said ≡ [])
  IsCause (directory_unusable socket) said =
      (cli.check_config ≡ true)
      × ((after : Host) × IsChecked w.parent w.pid R X w.files cli.config w.reach w.faults host
            (some socket) after)
      × (said ≡ [])
  IsCause (start_failed e) said = (config : Config R X) × IsStarted config (err e) said
  IsCause no_terminate_handler said =
      ((config : Config R X) × IsStarted config (ok tt) said) × (w.terminate_fails ≡ true)
  IsCause no_hangup_handler said =
      ((config : Config R X) × IsStarted config (ok tt) said)
      × (w.terminate_fails ≡ false)
      × (w.hangup_fails ≡ true)
  IsCause _ said = ⊥

  -- Behind the command line: the loop with its listeners announced, a failure with the line that says
  -- which behind the announcements, or a success of `--check-config` that has found every directory
  -- usable, with one line on standard output.
  abbrev pub IsReported : Ended G R X → Console G → Type 0
  IsReported panicked c = ⊥
  IsReported (serving state) c =
      ((said : List Announcement) × IsStarted state.config (ok tt) said
        × (c.logged ≡ shown G cli.log_level said))
      × (w.terminate_fails ≡ false)
      × (w.hangup_fails ≡ false)
  IsReported (exited code) c =
      ((code ≡ failure)
        × ((line : Line) × (said : List Announcement) × IsCause line said
            × (c.logged ≡ line ∷ shown G cli.log_level said)))
      ⊎ ((code ≡ success)
          × (cli.check_config ≡ true)
          × ((after : Host) × IsChecked w.parent w.pid R X w.files cli.config w.reach w.faults host
                none after)
          × (c.logged ≡ [])
          × (c.standard_output ≡ config_fine cli.config ∷ []))

module _ (G : LogApi) (R : RedisApi) (X : RegexApi) (w : Surroundings G R X) where
  -- The whole run: as behind the command line, or ended by clap, or refused before it.
  abbrev pub IsExplained : Host → Ended G R X → Console G → Type 0
  IsExplained host ended c =
      ((a : Arguments G) × (w.arguments ≡ ok a)
        × (c.logger ≡ some (logger_of G R X w (parsed G a)))
        × IsReported G R X w (parsed G a) host ended c)
      ⊎ ((code : ℕ) × (w.arguments ≡ err code) × (ended ≡ exited code))
      ⊎ ((is_refused G R X w ≡ true)
          × (ended ≡ exited failure)
          × (c.standard_error ≡ not_acknowledged ∷ []))
