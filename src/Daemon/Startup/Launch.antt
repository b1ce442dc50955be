-- ===== src/Daemon/Startup/Launch.antt =====
-- src/bin/postfix-ratelimitd.rs: `main` from the config file on, and `--check-config` with
-- `check_socket_directory`.
use postfix_ratelimitd.Base.{
  ℕ, ◌≡◌, ◌∙◌, ap, Bool, true, false, not, ◌||◌, List, [], ◌∷◌, ◌++◌, Option, none, some, Outcome,
  ok, err, ◌==◌, is_empty, if◌then◌else◌, arith, inl, inr, Bool-cases,
}
use postfix_ratelimitd.Base.Text.{Text, codes, text_eq, text_eq_sound}
use postfix_ratelimitd.Base.Decimal.{decimal}
use postfix_ratelimitd.Config.Error.{ConfigError}
use postfix_ratelimitd.Config.Redis.{RedisApi}
use postfix_ratelimitd.Config.Rules.{RegexApi}
use postfix_ratelimitd.Config.Load.{Config, Files, Loaded, returned, panicked, load}
use postfix_ratelimitd.Limiter.Connect.{Reach}
use postfix_ratelimitd.Daemon.Startup.{
  Node, absent, live, stale, Announcement, Host, Faults, Fatal, put, created_mode, startup,
}
use postfix_ratelimitd.Daemon.Startup.Safety.{startup-keeps_live}

abbrev pub socket_probe_prefix : Text
socket_probe_prefix = codes ".rl-check-"

pub ends_with_slash : Text → Bool
ends_with_slash [] = false
ends_with_slash (c ∷ []) = c == 47
ends_with_slash (c ∷ d ∷ rest) = ends_with_slash (d ∷ rest)

-- `Path::join` of a relative path to one that is not empty
pub join : Text → Text → Text
unfolding ends_with_slash
join dir name = if ends_with_slash dir then dir ++ name else dir ++ 47 ∷ name

pub is_absent : Node → Bool
is_absent absent = true
is_absent _ = false

module _ (R : RedisApi) (X : RegexApi) where
  -- How `main` gets to its signals and its loop, or ends before; where it has tried to start, with what
  -- it has announced.
  pub data Launched : Type 0 where
    config_failed : ConfigError → Launched
    check_failed : Text → Launched
    config_ok crashed : Launched
    started : Config R X → List Announcement → Outcome Fatal (Unit {0}) → Launched

  unfoldable pub checked : Option Text × Host → Launched × Host
  checked (none, host) = (config_ok, host)
  checked (some socket, host) = (check_failed socket, host)

-- `parent` is `Path::parent`.
module _ (parent : Text → Option Text) (pid : ℕ) where
  pub directory_of : Text → Text
  directory_of socket = elim (parent socket) [
    | none ↦ codes "."
    | some dir ↦ if is_empty dir then codes "." else dir
  ]

  pub probe_of : Text → Text
  unfolding directory_of join
  probe_of socket = join (directory_of socket) (socket_probe_prefix ++ decimal pid)

  -- The probe is bound where nothing stands, closed, and removed. `true` is `Ok`.
  pub check_socket_directory : Text → (Text → Faults) → Host → Bool × Host
  unfolding put probe_of is_absent created_mode
  check_socket_directory socket faults host =
      let probe = probe_of socket in
      let bound = put probe (stale (created_mode 9 host.umask)) host in
      if (faults probe).bind_fails || not (is_absent (host.node probe))
      then (false, host)
      else if (faults probe).remove_fails
      then (false, bound)
      else (true, put probe absent bound)

  -- The first socket whose directory is of no use, if there is one.
  pub check_sockets : List Text → (Text → Faults) → Host → Option Text × Host
  unfolding check_socket_directory
  check_sockets [] faults host = (none, host)
  check_sockets (socket ∷ rest) faults host =
      let checked = check_socket_directory socket faults host in
      let later = check_sockets rest faults checked.1 in
      if checked.0 then later else (some socket, checked.1)

  abbrev pub with_optional : Text → Option Text → List Text
  with_optional socket none = socket ∷ []
  with_optional socket (some control_socket) = socket ∷ control_socket ∷ []

  module _ (R : RedisApi) (X : RegexApi) where
    -- Behind `Config::load`
    unfoldable pub with_config :
        Config R X → Bool → Reach → (Text → Faults) → Host → Launched R X × Host
    unfolding check_sockets checked
    with_config config check_config reach faults host =
        if check_config
        then checked R X
            (check_sockets (with_optional config.socket config.control_socket) faults host)
        else let begun = startup config.socket config.control_socket reach faults host in
          (started config begun.1.announced begun.0, begun.1)

    unfoldable pub with_loaded :
        Loaded (Config R X) → Bool → Reach → (Text → Faults) → Host → Launched R X × Host
    unfolding with_config
    with_loaded panicked check_config reach faults host = (crashed, host)
    with_loaded (returned (err e)) check_config reach faults host = (config_failed e, host)
    with_loaded (returned (ok config)) check_config reach faults host =
        with_config config check_config reach faults host

    unfoldable pub launch :
        Files R X → Text → Bool → Reach → (Text → Faults) → Host → Launched R X × Host
    unfolding with_loaded
    launch files path = with_loaded (load R X files path)

  module _ (faults : Text → Faults) (q : Text) (m : ℕ) where
    check_socket_directory-keeps_live :
        (socket : Text) (host : Host)
        → host.node q ≡ live m
        → (check_socket_directory socket faults host).1.node q ≡ live m
    unfolding check_socket_directory put is_absent
    check_socket_directory-keeps_live socket host p =
        let probe = probe_of socket in
        elim (Bool-cases ((faults probe).bind_fails || not (is_absent (host.node probe)))) [
          | inl e ↦ rw e p
          | inr e ↦ elim (Bool-cases (text_eq probe q)) [
            | inl same ↦
                let here = ap host.node (text_eq_sound probe q same) ∙ p in
                absurd (ground (arith, e, here))
            | inr apart ↦ elim (Bool-cases (faults probe).remove_fails) [
              | inl f ↦ rw (e, f, apart) p
              | inr f ↦ rw (e, f, apart) p
            ]
          ]
        ]

    check_sockets-keeps_live :
        (sockets : List Text) (host : Host)
        → host.node q ≡ live m
        → (check_sockets sockets faults host).1.node q ≡ live m
    unfolding check_sockets
    check_sockets-keeps_live [] host p = p
    check_sockets-keeps_live (socket ∷ rest) host p =
        let here = check_socket_directory-keeps_live socket host p in
        elim (Bool-cases (check_socket_directory socket faults host).0) [
          | inl e ↦
              rw e
                (check_sockets-keeps_live rest (check_socket_directory socket faults host).1 here)
          | inr e ↦ rw e here
        ]

    module _ (R : RedisApi) (X : RegexApi) (reach : Reach) (host : Host)
        (heard : (faults q).connect_fails ≡ false) (p : host.node q ≡ live m) where
      checked-keeps_live :
          (r : Option Text × Host) → r.1.node q ≡ live m → (checked R X r).1.node q ≡ live m
      unfolding checked
      checked-keeps_live (none, h) live_there = live_there
      checked-keeps_live (some socket, h) live_there = live_there

      with_loaded-keeps_live :
          (loaded : Loaded (Config R X)) (check_config : Bool)
          → (with_loaded R X loaded check_config reach faults host).1.node q ≡ live m
      unfolding with_loaded with_config checked
      with_loaded-keeps_live panicked check_config = p
      with_loaded-keeps_live (returned (err e)) check_config = p
      with_loaded-keeps_live (returned (ok config)) true =
          checked-keeps_live
            (check_sockets (with_optional config.socket config.control_socket) faults host)
            (check_sockets-keeps_live (with_optional config.socket config.control_socket) host p)
      with_loaded-keeps_live (returned (ok config)) false =
          startup-keeps_live config.socket config.control_socket reach faults q m heard host p

      -- Whatever the config file holds, with `--check-config` or without, and whatever else fails on
      -- the way, launching the daemon removes no socket that another process listens on, and changes
      -- no such socket's mode, where connecting to it does not fail with another error than a missing
      -- permission.
      pub launch-keeps_live :
          (files : Files R X) (path : Text) (check_config : Bool)
          → (launch R X files path check_config reach faults host).1.node q ≡ live m
      unfolding launch
      launch-keeps_live files path = with_loaded-keeps_live (load R X files path)
