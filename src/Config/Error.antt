-- ===== src/Config/Error.antt =====
-- src/config.rs: `ConfigError`. The wrapped errors of other crates are left out.
use postfix_ratelimitd.Base.{ℕ}
use postfix_ratelimitd.Base.Text.{Text}
use postfix_ratelimitd.Config.Window.{Duration}

pub data ConfigError : Type 0 where
  read parse read_password_file bad_redis_url : Text → ConfigError
  ambiguous_password control_socket_same_as_socket : ConfigError
  bad_regex empty_username no_windows : ℕ → ConfigError
  windows_with_unrestricted redundant_unrestricted_false : ℕ → ConfigError
  default_count : ℕ → ConfigError
  window_too_short window_too_long : ℕ → Duration → ConfigError
