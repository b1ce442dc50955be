-- ===== src/Examples/Starting.antt =====
-- Starting the daemon of src/bin/postfix-ratelimitd.rs where a stale socket was left, and where another
-- process listens.
use postfix_ratelimitd.Examples.Serving.{reachable}
use postfix_ratelimitd.Base.{◌≡◌, refl, true, false, [], Option, some, err, if◌then◌else◌}
use postfix_ratelimitd.Base.Text.{Text, codes, text_eq}
use postfix_ratelimitd.Daemon.Startup.{
  absent, live, stale, other, Host, Faults, lock_held, bind_socket, startup, socket_mode,
}
use postfix_ratelimitd.Daemon.Startup.Early.{IsLockFile, startup_early}
use postfix_ratelimitd.Daemon.Startup.Safety.{KeepsRest, Creates, bind_socket-KeepsRest}

abbrev pub policy : Text
policy = codes "/run/policy"

abbrev pub admin : Text
admin = codes "/run/control"

abbrev pub no_faults : Faults
no_faults = record {
  connect_denied = false;
  connect_fails = false;
  open_fails = false;
  lock_fails = false;
  remove_fails = false;
  bind_fails = false;
  chmod_fails = false;
}

abbrev pub host : Host
host = record {
  node = λ q. if text_eq q policy then stale 432 else if text_eq q admin then live 384 else absent;
  locked = λ q. false;
  umask = 18;
  announced = [];
}

bind_socket-KeepsRest_example :
    KeepsRest policy host
      (bind_socket policy socket_mode (record no_faults { chmod_fails = true }) host).1
bind_socket-KeepsRest_example =
    bind_socket-KeepsRest policy socket_mode (record no_faults { chmod_fails = true }) host

-- A listener that cannot be connected to, for no missing permission, loses its file.
unheard :
    (bind_socket admin socket_mode
        (record no_faults { connect_fails = true; bind_fails = true })
        host).1.node
      admin
    ≡ absent
unfolding bind_socket text_eq
unheard = refl

pub admin_listens : host.node admin ≡ live 384
unfolding text_eq
admin_listens = refl

-- `Path::parent` of these paths
abbrev pub in_run : Text → Option Text
in_run path = some (codes "/run")

abbrev taken : Host
taken = record host { locked = λ q. true }

refuses :
    (startup policy (some admin) reachable (λ path. no_faults) taken).0 ≡ err (lock_held policy)
unfolding startup text_eq
refuses = refl

-- The lock that is held has its file from now on.
leaves_file :
    (startup policy (some admin) reachable (λ path. no_faults) taken).1.node
      (codes "/run/policy.lock")
    ≡ other
unfolding startup text_eq
leaves_file = refl

startup_early_example :
    Creates
      (IsLockFile policy (some admin))
      taken.node
      (startup policy (some admin) reachable (λ path. no_faults) taken).1.node
startup_early_example =
    startup_early policy (some admin) reachable (λ path. no_faults) taken (lock_held policy) tt
      refuses
