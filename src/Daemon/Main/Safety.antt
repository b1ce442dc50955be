-- ===== src/Daemon/Main/Safety.antt =====
-- What a run of `main` of src/bin/postfix-ratelimitd.rs does to sockets that others listen on.
use postfix_ratelimitd.Base.{false, ℕ, ◌≡◌, ◌∙◌, ap}
use postfix_ratelimitd.Base.Text.{Text}
use postfix_ratelimitd.Config.Redis.{RedisApi}
use postfix_ratelimitd.Config.Rules.{RegexApi}
use postfix_ratelimitd.Daemon.Startup.{live, Host}
use postfix_ratelimitd.Daemon.Startup.Launch.{launch-keeps_live}
use postfix_ratelimitd.Daemon.Main.CommandLine.{LogApi, parsed}
use postfix_ratelimitd.Daemon.Main.{Surroundings, launch_logged, main}
use postfix_ratelimitd.Daemon.Main.Start.{refused, ended_by_clap, logged, main-Start}

module _ (G : LogApi) (R : RedisApi) (X : RegexApi) where
  -- Whatever the build, the command line, the environment and the config file are, and whatever else
  -- fails on the way, running the daemon up to its loop removes no socket that another process listens
  -- on, and changes no such socket's mode, where connecting to it succeeds or fails for a missing
  -- permission.
  pub main-keeps_live :
      (w : Surroundings G R X) (host : Host) (q : Text) (m : ℕ)
      → (w.faults q).connect_fails ≡ false
      → host.node q ≡ live m
      → (main G R X w host).2.node q ≡ live m
  unfolding launch_logged
  main-keeps_live w host q m heard there = elim (main-Start G R X w host) [
    | refused e same ↦ ap (λ r. r.2.node q) same ∙ there
    | ended_by_clap code e same ↦ ap (λ r. r.2.node q) same ∙ there
    | logged a c e fresh same ↦
        let cli = parsed G a in
        ap (λ r. r.2.node q) same
        ∙ launch-keeps_live w.parent w.pid w.faults q m R X w.reach host heard there w.files
            cli.config cli.check_config
  ]
