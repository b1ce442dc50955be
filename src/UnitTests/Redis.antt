-- ===== src/UnitTests/Redis.antt =====
-- src/config.rs, `tests`: the URL, and the two places for a password.
use postfix_ratelimitd.Base.{◌≡◌, refl, Bool, true, false, [], ◌∷◌, Option, none, some}
use postfix_ratelimitd.Base.Text.{Text, codes, text_eq}
use postfix_ratelimitd.Config.Window.{from_hours}
use postfix_ratelimitd.Config.Error.{
  ConfigError, bad_redis_url, ambiguous_password, read_password_file,
}
use postfix_ratelimitd.UnitTests.Settings.{
  Configuration, load_config, load_beside, password_path, window, default_config, is_error,
  is_config, program,
}

abbrev is_bad_url : ConfigError → Bool
is_bad_url (bad_redis_url url) = true
is_bad_url _ = false

abbrev is_ambiguous : ConfigError → Bool
is_ambiguous ambiguous_password = true
is_ambiguous _ = false

abbrev is_no_password_file : ConfigError → Bool
is_no_password_file (read_password_file path) = true
is_no_password_file _ = false

abbrev same_password : Text → Option Text → Bool
same_password password none = false
same_password password (some other) = text_eq other password

-- `config.redis_connection_info.redis_settings().password() == Some(password)`
abbrev password_is : Text → Configuration → Bool
password_is password config = same_password password config.redis_connection_info.1.1

abbrev bad_redis_url_is_rejected : Bool
bad_redis_url_is_rejected = is_error is_bad_url (
    load_config
      (record (default_config (window 1 (from_hours 1) ∷ [])) { url = codes "not a url" }))

abbrev password_in_url_and_password_file_together_is_rejected : Bool
password_in_url_and_password_file_together_is_rejected = is_error is_ambiguous (
    load_beside (some (codes "secret")) (record (default_config (window 1 (from_hours 1) ∷ [])) {
      url = codes "redis://:embedded@127.0.0.1:6379";
      password_file = some password_path;
    }))

abbrev missing_password_file_is_rejected : Bool
missing_password_file_is_rejected = is_error is_no_password_file (
    load_config (record (default_config (window 1 (from_hours 1) ∷ [])) {
      password_file = some (codes "/nonexistent/path");
    }))

abbrev password_in_url_alone_is_used : Bool
password_in_url_alone_is_used = is_config (password_is (codes "embedded-pw")) (
    load_config (record (default_config (window 1 (from_hours 1) ∷ [])) {
      url = codes "redis://:embedded-pw@127.0.0.1:6379";
    }))

abbrev password_file_alone_is_used_and_trimmed : Bool
password_file_alone_is_used_and_trimmed = is_config (password_is (codes "file-pw")) (
    load_beside (some (codes "file-pw\n")) (record (default_config (window 1 (from_hours 1) ∷ [])) {
      password_file = some password_path;
    }))

abbrev password_file_trailing_space_is_preserved : Bool
password_file_trailing_space_is_preserved = is_config (password_is (codes "file-pw ")) (
    load_beside (some (codes "file-pw \n"))
      (record (default_config (window 1 (from_hours 1) ∷ [])) {
        password_file = some password_path;
      }))

all_pass :
    (bad_redis_url_is_rejected ≡ true)
    × (password_in_url_and_password_file_together_is_rejected ≡ true)
    × (missing_password_file_is_rejected ≡ true)
    × (password_in_url_alone_is_used ≡ true)
    × (password_file_alone_is_used_and_trimmed ≡ true)
    × (password_file_trailing_space_is_preserved ≡ true)
unfolding program
all_pass = (refl, refl, refl, refl, refl, refl)
