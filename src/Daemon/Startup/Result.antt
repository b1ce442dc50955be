-- ===== src/Daemon/Startup/Result.antt =====
-- What the result of the launch of src/bin/postfix-ratelimitd.rs says of the run up to it.
use postfix_ratelimitd.Base.{ℕ, ◌≡◌, refl, Bool, true, false, Option, none, some, ok, err}
use postfix_ratelimitd.Base.Text.{Text}
use postfix_ratelimitd.Config.Redis.{RedisApi}
use postfix_ratelimitd.Config.Rules.{RegexApi}
use postfix_ratelimitd.Config.Load.{Config, Files, Loaded, returned, panicked, load}
use postfix_ratelimitd.Config.Load.Chosen.{load-returns}
use postfix_ratelimitd.Limiter.Connect.{Reach}
use postfix_ratelimitd.Daemon.Startup.{Host, Faults, startup}
use postfix_ratelimitd.Daemon.Startup.Launch.{
  Launched, config_failed, check_failed, config_ok, crashed, started, checked, check_sockets,
  with_optional, with_config, with_loaded, launch,
}

module _ (parent : Text → Option Text) (pid : ℕ) (R : RedisApi) (X : RegexApi) (files : Files R X)
    (path : Text) (reach : Reach) (faults : Text → Faults) (host : Host) where
  -- What the directory check of `--check-config` finds.
  abbrev pub IsChecked : Option Text → Host → Type 0
  IsChecked found h =
      (config : Config R X) × (load R X files path ≡ returned (ok config))
      × (check_sockets parent pid (with_optional parent pid config.socket config.control_socket)
            faults host
          ≡ (found, h))

  abbrev pub Fits : Bool → Launched R X × Host → Type 0
  Fits check_config (crashed, h) = ⊥
  Fits check_config (config_failed e, h) = load R X files path ≡ returned (err e)
  Fits check_config (check_failed socket, h) = (check_config ≡ true) × IsChecked (some socket) h
  Fits check_config (config_ok, h) = (check_config ≡ true) × IsChecked none h
  Fits check_config (started config said result, h) =
      (check_config ≡ false)
      × (load R X files path ≡ returned (ok config))
      × (startup config.socket config.control_socket reach faults host ≡ (result, h))
      × (said ≡ h.announced)

  checked-Fits :
      (config : Config R X) (r : Option Text × Host)
      → load R X files path ≡ returned (ok config)
      → check_sockets parent pid
          (with_optional parent pid config.socket config.control_socket)
          faults
          host
        ≡ r
      → Fits true (checked R X r)
  unfolding checked
  checked-Fits config (none, h) same found = (refl, (config, same, found))
  checked-Fits config (some socket, h) same found = (refl, (config, same, found))

  with_loaded-Fits :
      (loaded : Loaded (Config R X)) (check_config : Bool)
      → load R X files path ≡ loaded
      → Fits check_config (with_loaded parent pid R X loaded check_config reach faults host)
  unfolding with_loaded with_config
  with_loaded-Fits panicked check_config e = load-returns R X files path e
  with_loaded-Fits (returned (err e)) check_config same = same
  with_loaded-Fits (returned (ok config)) true same =
      checked-Fits config
        (check_sockets parent pid (with_optional parent pid config.socket config.control_socket)
          faults host)
        same refl
  with_loaded-Fits (returned (ok config)) false same = (refl, same, refl, refl)

  -- No launch crashes, only `--check-config` ends with a checked file, and only a run without it starts.
  pub launch-Fits :
      (check_config : Bool)
      → Fits check_config (launch parent pid R X files path check_config reach faults host)
  unfolding launch
  launch-Fits check_config = with_loaded-Fits (load R X files path) check_config refl
