-- ===== src/UnitTests/Windows.antt =====
-- src/config.rs, `tests`: which windows and which `unrestricted` an entry may have.
use postfix_ratelimitd.Base.{◌≡◌, refl, Bool, true, false, [], ◌∷◌, none, some, ◌==◌, ◌*◌, is_empty}
use postfix_ratelimitd.Base.Text.{codes}
use postfix_ratelimitd.Config.Window.{Duration, from_secs, from_hours}
use postfix_ratelimitd.Config.Error.{
  ConfigError, no_windows, windows_with_unrestricted, redundant_unrestricted_false,
  window_too_short, window_too_long,
}
use postfix_ratelimitd.Config.Rules.{username, default}
use postfix_ratelimitd.UnitTests.Settings.{
  Configuration, load_config, window, with_rules, default_config, is_error, is_config, plan_of,
  program,
}

abbrev is_too_short : ConfigError → Bool
is_too_short (window_too_short index duration) = index == 0
is_too_short _ = false

abbrev is_too_long : ConfigError → Bool
is_too_long (window_too_long index duration) = index == 0
is_too_long _ = false

abbrev is_no_windows : ConfigError → Bool
is_no_windows (no_windows index) = index == 0
is_no_windows _ = false

abbrev is_redundant : ConfigError → Bool
is_redundant (redundant_unrestricted_false index) = index == 0
is_redundant _ = false

abbrev is_contradictory : ConfigError → Bool
is_contradictory (windows_with_unrestricted index) = index == 0
is_contradictory _ = false

abbrev is_ok : Configuration → Bool
is_ok config = true

-- "500ms"
abbrev half_second : Duration
half_second = record { secs = 0; nanos = 500000000 }

abbrev subsecond_window_duration_is_rejected : Bool
subsecond_window_duration_is_rejected =
    is_error is_too_short (load_config (default_config (window 1 half_second ∷ [])))

abbrev zero_second_window_duration_is_rejected : Bool
zero_second_window_duration_is_rejected =
    is_error is_too_short (load_config (default_config (window 1 (from_secs 0) ∷ [])))

abbrev window_duration_under_60s_is_rejected : Bool
window_duration_under_60s_is_rejected =
    is_error is_too_short (load_config (default_config (window 1 (from_secs 59) ∷ [])))

abbrev empty_windows_is_rejected : Bool
empty_windows_is_rejected = is_error is_no_windows (load_config (default_config []))

abbrev unrestricted_true_is_accepted_and_matches_everything : Bool
unrestricted_true_is_accepted_and_matches_everything =
    is_config (λ config. is_empty (plan_of config (codes "alice")).bucket_sizes)
      (load_config (
        with_rules (
          username (codes "alice") none (some true)
          ∷ default (some (window 1 (from_hours 1) ∷ [])) none
          ∷ [])))

abbrev unrestricted_false_alongside_windows_is_rejected : Bool
unrestricted_false_alongside_windows_is_rejected =
    is_error is_redundant
      (load_config (with_rules (default (some (window 1 (from_hours 1) ∷ [])) (some false) ∷ [])))

abbrev unrestricted_false_alone_is_rejected_as_no_windows : Bool
unrestricted_false_alone_is_rejected_as_no_windows =
    is_error is_no_windows (load_config (with_rules (default none (some false) ∷ [])))

abbrev windows_alongside_unrestricted_true_is_rejected : Bool
windows_alongside_unrestricted_true_is_rejected =
    is_error is_contradictory
      (load_config (with_rules (default (some (window 1 (from_hours 1) ∷ [])) (some true) ∷ [])))

abbrev window_duration_of_exactly_60s_is_accepted : Bool
window_duration_of_exactly_60s_is_accepted =
    is_config is_ok (load_config (default_config (window 1 (from_secs 60) ∷ [])))

abbrev window_duration_over_31_days_is_rejected : Bool
window_duration_over_31_days_is_rejected =
    is_error is_too_long (load_config (default_config (window 1 (from_hours (32 * 24)) ∷ [])))

abbrev window_duration_of_exactly_31_days_is_accepted : Bool
window_duration_of_exactly_31_days_is_accepted =
    is_config is_ok (load_config (default_config (window 1 (from_hours (31 * 24)) ∷ [])))

all_pass :
    (subsecond_window_duration_is_rejected ≡ true)
    × (zero_second_window_duration_is_rejected ≡ true)
    × (window_duration_under_60s_is_rejected ≡ true)
    × (empty_windows_is_rejected ≡ true)
    × (unrestricted_true_is_accepted_and_matches_everything ≡ true)
    × (unrestricted_false_alongside_windows_is_rejected ≡ true)
    × (unrestricted_false_alone_is_rejected_as_no_windows ≡ true)
    × (windows_alongside_unrestricted_true_is_rejected ≡ true)
    × (window_duration_of_exactly_60s_is_accepted ≡ true)
    × (window_duration_over_31_days_is_rejected ≡ true)
    × (window_duration_of_exactly_31_days_is_accepted ≡ true)
unfolding program
all_pass = (refl, refl, refl, refl, refl, refl, refl, refl, refl, refl, refl)
