-- ===== src/UnitTests/Server.antt =====
-- src/config.rs, `tests`: the `[server]` section and its defaults.
use postfix_ratelimitd.Base.{◌≡◌, refl, Bool, true, false, [], ◌∷◌, Option, none, some, is_none}
use postfix_ratelimitd.Base.Text.{Text, codes, text_eq}
use postfix_ratelimitd.Config.Window.{from_hours}
use postfix_ratelimitd.Config.Error.{ConfigError, control_socket_same_as_socket}
use postfix_ratelimitd.Config.Load.{FailureAction, defer, permit}
use postfix_ratelimitd.UnitTests.Settings.{
  load_config, window, default_config, is_error, is_config, program,
}

abbrev is_same_socket : ConfigError → Bool
is_same_socket control_socket_same_as_socket = true
is_same_socket _ = false

abbrev is_defer : FailureAction → Bool
is_defer defer = true
is_defer permit = false

abbrev is_path : Text → Option Text → Bool
is_path path none = false
is_path path (some other) = text_eq other path

abbrev on_redis_error_defaults_to_defer : Bool
on_redis_error_defaults_to_defer =
    is_config (λ config. is_defer config.on_redis_error)
      (load_config (default_config (window 1 (from_hours 1) ∷ [])))

abbrev warn_on_unauthenticated_defaults_to_true : Bool
warn_on_unauthenticated_defaults_to_true =
    is_config (λ config. config.warn_on_unauthenticated)
      (load_config (default_config (window 1 (from_hours 1) ∷ [])))

abbrev control_socket_defaults_to_none : Bool
control_socket_defaults_to_none =
    is_config (λ config. is_none config.control_socket)
      (load_config (default_config (window 1 (from_hours 1) ∷ [])))

abbrev control_socket_is_used_when_set : Bool
control_socket_is_used_when_set =
    is_config (λ config. is_path (codes "/tmp/control") config.control_socket)
      (load_config (record (default_config (window 1 (from_hours 1) ∷ [])) {
        control_socket = some (codes "/tmp/control");
      }))

abbrev control_socket_same_as_socket_is_rejected : Bool
control_socket_same_as_socket_is_rejected = is_error is_same_socket (
    load_config (record (default_config (window 1 (from_hours 1) ∷ [])) {
      control_socket = some (codes "/tmp/policy");
    }))

all_pass :
    (on_redis_error_defaults_to_defer ≡ true)
    × (warn_on_unauthenticated_defaults_to_true ≡ true)
    × (control_socket_defaults_to_none ≡ true)
    × (control_socket_is_used_when_set ≡ true)
    × (control_socket_same_as_socket_is_rejected ≡ true)
unfolding program
all_pass = (refl, refl, refl, refl, refl)
