-- ===== src/Daemon/Main/Ready.antt =====
-- The state of the process and of the host in which `main` of src/bin/postfix-ratelimitd.rs enters its
-- loop.
use postfix_ratelimitd.Base.{◌≡◌, ◌∙◌, refl, ap, sym, subst, Bool, ok, err, arith}
use postfix_ratelimitd.Base.Text.{Text}
use postfix_ratelimitd.Config.Redis.{RedisApi}
use postfix_ratelimitd.Config.Rules.{RegexApi}
use postfix_ratelimitd.Config.Load.{Config, returned, load}
use postfix_ratelimitd.Config.Load.Origin.{load-apart}
use postfix_ratelimitd.Daemon.Reload.{RuntimeState, initial_state}
use postfix_ratelimitd.Daemon.Startup.{Host}
use postfix_ratelimitd.Daemon.Startup.Ready.{IsReady, startup-IsReady}
use postfix_ratelimitd.Daemon.Startup.Launch.{
  Launched, config_failed, check_failed, config_ok, crashed, started, launch,
}
use postfix_ratelimitd.Daemon.Startup.Result.{Fits, launch-Fits}
use postfix_ratelimitd.Daemon.Main.CommandLine.{LogApi, Arguments, parsed}
use postfix_ratelimitd.Daemon.Main.Logging.{Console, log_announced}
use postfix_ratelimitd.Daemon.Main.{
  Surroundings, serving, fatal, install_signals, conclude_launch, launch_logged, main,
}
use postfix_ratelimitd.Daemon.Main.Start.{refused, ended_by_clap, logged, main-Start}

module _ (G : LogApi) (R : RedisApi) (X : RegexApi) where
  module _ (w : Surroundings G R X) (path : Text) (before after : Host) where
    -- The configuration is the file's, the limiter is built from it, and the host is ready for it.
    pub record IsServable (state : RuntimeState R X) : Type 0 where
      pub loaded : load R X w.files path ≡ returned (ok state.config)
      pub matched : state ≡ initial_state R X state.config
      pub ready :
          IsReady state.config.socket state.config.control_socket w.reach w.faults before after

    install_signals-state :
        (config : Config R X) (c : Console G) (state : RuntimeState R X)
        → (install_signals G R X w config c).0 ≡ serving state
        → initial_state R X config ≡ state
    unfolding install_signals fatal
    install_signals-state config c state h = ground arith

    conclude_launch-IsServable :
        (check_config : Bool) (launched : Launched R X) (c : Console G) (state : RuntimeState R X)
        → Fits w.parent w.pid R X w.files path w.reach w.faults before check_config
            (launched, after)
        → (conclude_launch G R X w path launched c).0 ≡ serving state
        → IsServable state
    unfolding conclude_launch fatal
    conclude_launch-IsServable check crashed c state fits h = absurd fits
    conclude_launch-IsServable check (config_failed e) c state fits h = absurd ground (arith, h)
    conclude_launch-IsServable check (check_failed socket) c state fits h = absurd ground (arith, h)
    conclude_launch-IsServable check config_ok c state fits h = absurd ground (arith, h)
    conclude_launch-IsServable check (started config said (err e)) c state fits h =
        absurd ground (arith, h)
    conclude_launch-IsServable check (started config said (ok tt)) c state fits h =
        subst IsServable (install_signals-state config (log_announced G said c) state h) (record {
          loaded = fits.1;
          matched = refl;
          ready =
              subst (IsReady config.socket config.control_socket w.reach w.faults before)
                (ap (λ r. r.1) fits.2)
                (startup-IsReady config.socket config.control_socket w.reach w.faults before
                  (load-apart R X w.files path config fits.1) (ap (λ r. r.0) fits.2));
        })

  -- Where `main` enters its loop, the state that it shares is the configuration that it loaded and the
  -- limiter built from its settings, the server can be used, both sockets listen, each in exactly its
  -- mode, at paths where nobody listened before whom a connect reaches, and under startup locks that were
  -- free and are held, and the umask is what it was.
  pub main-IsServable :
      (w : Surroundings G R X) (host : Host) (state : RuntimeState R X)
      → (main G R X w host).0 ≡ serving state
      → (a : Arguments G) × (w.arguments ≡ ok a)
        × IsServable w (parsed G a).config host (main G R X w host).2 state
  unfolding launch_logged
  main-IsServable w host state h = elim (main-Start G R X w host) [
    | refused e same ↦ absurd ground (arith, sym (ap (λ r. r.0) same) ∙ h)
    | ended_by_clap code e same ↦ absurd ground (arith, sym (ap (λ r. r.0) same) ∙ h)
    | logged a c e fresh same ↦
        let cli = parsed G a in
        let launched =
          launch w.parent w.pid R X w.files cli.config cli.check_config w.reach w.faults host in
        (
          a,
          e,
          subst (λ after. IsServable w cli.config host after state) (sym (ap (λ r. r.2) same))
              (conclude_launch-IsServable w cli.config host launched.1 cli.check_config launched.0 c
                state
                (launch-Fits w.parent w.pid R X w.files cli.config w.reach w.faults host
                  cli.check_config)
                (sym (ap (λ r. r.0) same) ∙ h)),
        )
  ]
