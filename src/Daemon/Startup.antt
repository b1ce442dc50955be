-- ===== src/Daemon/Startup.antt =====
-- src/bin/postfix-ratelimitd.rs: the startup locks, `bind_socket`, and the order in which `main` uses
-- them, on the files of one host; the children have `--check-config` and what holds of all.
pub mod Safety
pub mod Announced
pub mod Early
pub mod Locking
pub mod Binding
pub mod Ready
pub mod Launch
pub mod Result
use postfix_ratelimitd.Limiter.Connect.{Reach, LimiterError, connect_and_check}
use postfix_ratelimitd.Base.{
  Outcome-cases, ℕ, zero, suc, ◌+◌, ◌-◌, ◌*◌, ◌/◌, ◌%◌, Bool, true, false, ◌||◌, ◌&&◌, not, List,
  [], ◌∷◌, ◌++◌, Option, none, some, Outcome, ok, err, if◌then◌else◌,
}
use postfix_ratelimitd.Base.Text.{Text, codes, text_eq}

-- What stands at a path: a socket with a mode and a listener or without, or another file.
pub data Node : Type 0 where
  absent : Node
  live stale : ℕ → Node
  other : Node

-- The info lines that say of a bound socket that the daemon listens on it.
pub data Announcement : Type 0 where
  listening listening_control : Text → Announcement

-- The files, which lock files are locked, the process umask, and the lines of `Announcement` that the
-- process has logged, the newest first.
pub record Host : Type 0 where
  pub node : Text → Node
  pub locked : Text → Bool
  pub umask : ℕ
  pub announced : List Announcement

-- What the system refuses at one path: of connecting, a permission, or (`connect_fails`) with any other
-- error although somebody listens; of the lock file, to open it, or to lock it for another reason
-- than that it is locked.
pub record Faults : Type 0 where
  pub connect_denied : Bool
  pub connect_fails : Bool
  pub open_fails : Bool
  pub lock_fails : Bool
  pub remove_fails : Bool
  pub bind_fails : Bool
  pub chmod_fails : Bool

-- The failures of a start, with the socket that the message names.
pub data Fatal : Type 0 where
  lock_held lock_failed in_use remove_failed bind_failed chmod_failed : Text → Fatal
  limiter_failed : LimiterError → Fatal

abbrev pub Startup : Type 0 → Type 0
Startup A = Outcome Fatal A × Host

abbrev pub socket_mode : ℕ
socket_mode = 432

abbrev pub control_socket_mode : ℕ
control_socket_mode = 384

abbrev pub socket_create_umask : ℕ
socket_create_umask = 127

-- 0o777 & !umask, bit by bit
pub created_mode : ℕ → ℕ → ℕ
created_mode zero umask = 0
created_mode (suc bits) umask = (1 - umask % 2) + 2 * created_mode bits (umask / 2)

pub put : Text → Node → Host → Host
put path n host = record host { node = λ q. if text_eq path q then n else host.node q }

pub lock_path : Text → Text
lock_path socket = socket ++ codes ".lock"

-- `open` for writing, with `create`: what is there stays as it is, and a socket cannot be opened.
pub create_and_open : Text → Node → Host → Option Host
unfolding put
create_and_open path absent host = some (put path other host)
create_and_open path (live mode) host = none
create_and_open path (stale mode) host = none
create_and_open path other host = some host

pub open_lock_file : Text → Faults → Host → Option Host
unfolding create_and_open
open_lock_file path faults host =
    if faults.open_fails then none else create_and_open path (host.node path) host

-- `try_lock` of the open file; the lock lasts as long as the process.
pub try_lock : Text → Faults → Host → Startup (Unit {0})
unfolding lock_path
try_lock socket faults host =
    if faults.lock_fails
    then (err (lock_failed socket), host)
    else if host.locked (lock_path socket)
    then (err (lock_held socket), host)
    else (
      ok tt,
      record host { locked = λ q. if text_eq (lock_path socket) q then true else host.locked q },
    )

-- `acquire_startup_lock_or_fatal`; the lock file stays, whatever comes of it.
pub acquire_startup_lock : Text → Faults → Host → Startup (Unit {0})
unfolding lock_path open_lock_file try_lock
acquire_startup_lock socket faults host = elim (open_lock_file (lock_path socket) faults host) [
  | none ↦ (err (lock_failed socket), host)
  | some opened ↦ try_lock socket faults opened
]

is_live : Node → Bool
is_live (live mode) = true
is_live _ = false

-- Any error but a missing permission is taken for a socket without a listener.
pub socket_is_live : Text → Faults → Host → Bool
unfolding is_live
socket_is_live socket faults host =
    faults.connect_denied || (is_live (host.node socket) && not faults.connect_fails)

-- `remove_file`; a missing file is no error.
pub removable : Node → Faults → Bool
removable absent faults = true
removable (live mode) faults = if faults.remove_fails then false else true
removable (stale mode) faults = if faults.remove_fails then false else true
removable other faults = if faults.remove_fails then false else true

-- `UnixListener::bind` under the narrowed umask, which is put back whatever happens; then the chmod.
pub bind_and_chmod : Text → ℕ → Faults → Host → Startup (Unit {0})
unfolding put created_mode
bind_and_chmod socket mode faults host =
    let narrowed = record host { umask = socket_create_umask } in
    let bound = put socket (live (created_mode 9 narrowed.umask)) narrowed in
    if faults.bind_fails
    then (err (bind_failed socket), record narrowed { umask = host.umask })
    else if faults.chmod_fails
    then (err (chmod_failed socket), record bound { umask = host.umask })
    else (ok tt, put socket (live mode) (record bound { umask = host.umask }))

unfoldable pub bind_socket : Text → ℕ → Faults → Host → Startup (Unit {0})
unfolding socket_is_live removable put bind_and_chmod
bind_socket socket mode faults host =
    if socket_is_live socket faults host
    then (err (in_use socket), host)
    else if removable (host.node socket) faults
    then bind_and_chmod socket mode faults (put socket absent host)
    else (err (remove_failed socket), host)

-- One step of `main` and, if it succeeds, the next.
pub and_next : Startup (Unit {0}) → (Host → Startup (Unit {0})) → Startup (Unit {0})
and_next (ok u, host) next = next host
and_next (err e, host) next = (err e, host)

pub optional : Option Text → (Text → Host → Startup (Unit {0})) → Host → Startup (Unit {0})
optional none f host = (ok tt, host)
optional (some path) f host = f path host

-- The info line behind a successful `bind_socket`.
pub announce : Announcement → Startup (Unit {0}) → Startup (Unit {0})
announce line (ok u, host) = (ok u, record host { announced = line ∷ host.announced })
announce line (err e, host) = (err e, host)

module _ (socket : Text) (control_socket : Option Text) (reach : Reach)
    (faults : Text → Faults) where
  pub lock_at : Text → Host → Startup (Unit {0})
  unfolding acquire_startup_lock
  lock_at path host = acquire_startup_lock path (faults path) host

  pub bind_control : Text → Host → Startup (Unit {0})
  unfolding bind_socket announce
  bind_control path host =
      announce (listening_control path) (bind_socket path control_socket_mode (faults path) host)

  -- `Limiter::new` changes nothing here.
  pub connect_limiter : Host → Startup (Unit {0})
  connect_limiter host = elim (connect_and_check reach) [
    | ok checked ↦ (ok tt, host)
    | err e ↦ (err (limiter_failed e), host)
  ]

  pub bind_both : Host → Startup (Unit {0})
  unfolding bind_socket announce and_next optional bind_control
  bind_both host =
      and_next (announce (listening socket) (bind_socket socket socket_mode (faults socket) host))
        (optional control_socket bind_control)

  pub connect_and_bind : Host → Startup (Unit {0})
  unfolding connect_limiter and_next bind_both
  connect_and_bind host = and_next (connect_limiter host) bind_both

  pub lock_control_and_go : Host → Startup (Unit {0})
  unfolding and_next optional lock_at connect_and_bind
  lock_control_and_go host = and_next (optional control_socket lock_at host) connect_and_bind

  -- `main` from the first lock to the last socket, in a process that has announced nothing yet.
  unfoldable pub startup : Host → Startup (Unit {0})
  unfolding lock_at and_next lock_control_and_go
  startup host = and_next (lock_at socket (record host { announced = [] })) lock_control_and_go
