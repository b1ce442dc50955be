-- ===== src/UnitTests/Defaults.antt =====
-- src/config.rs, `tests`: how many `default` entries a file has, and which entry applies.
use postfix_ratelimitd.Base.{ℕ, ◌≡◌, refl, Bool, true, false, ◌&&◌, [], ◌∷◌, none, some, ◌==◌}
use postfix_ratelimitd.Base.Text.{codes}
use postfix_ratelimitd.Config.Window.{from_hours}
use postfix_ratelimitd.Config.Error.{ConfigError, default_count}
use postfix_ratelimitd.Config.Rules.{username, regex, default}
use postfix_ratelimitd.UnitTests.Settings.{
  alice_regex, contractor_regex, load_config, window, with_rules, is_error, is_config,
  first_limit_is, program,
}

abbrev is_default_count : ℕ → ConfigError → Bool
is_default_count n (default_count m) = m == n
is_default_count n _ = false

abbrev zero_default_rules_is_rejected : Bool
zero_default_rules_is_rejected = is_error (is_default_count 0) (
    load_config
      (with_rules (username (codes "alice") (some (window 1 (from_hours 1) ∷ [])) none ∷ [])))

abbrev multiple_default_rules_is_rejected : Bool
multiple_default_rules_is_rejected = is_error (is_default_count 2) (
    load_config (
      with_rules (
        default (some (window 1 (from_hours 1) ∷ [])) none
        ∷ default (some (window 2 (from_hours 1) ∷ [])) none
        ∷ [])))

abbrev default_rule_position_does_not_matter : Bool
default_rule_position_does_not_matter =
    is_config
      (λ config. first_limit_is 2 (codes "alice") config && first_limit_is 1 (codes "bob") config)
      (load_config (
        with_rules (
          default (some (window 1 (from_hours 1) ∷ [])) none
          ∷ username (codes "alice") (some (window 2 (from_hours 1) ∷ [])) none
          ∷ [])))

abbrev a_representative_config_loads_successfully : Bool
a_representative_config_loads_successfully =
    is_config
      (λ config.
        first_limit_is 20 (codes "alice") config
        && first_limit_is 10 (codes "bob@contractors.example.com") config
        && first_limit_is 50 (codes "nobody") config)
      (load_config (
        with_rules (
          username (codes "alice")
            (some (window 20 (from_hours 1) ∷ window 100 (from_hours 24) ∷ [])) none
          ∷ regex contractor_regex (some (window 10 (from_hours 1) ∷ [])) none
          ∷ default (some (window 50 (from_hours 1) ∷ window 200 (from_hours 24) ∷ [])) none
          ∷ [])))

abbrev rule_precedence_is_purely_positional_not_type_based : Bool
rule_precedence_is_purely_positional_not_type_based =
    is_config (first_limit_is 10 (codes "alice@example.com")) (
      load_config (
        with_rules (
          regex alice_regex (some (window 10 (from_hours 1) ∷ [])) none
          ∷ username (codes "alice@example.com") (some (window 20 (from_hours 1) ∷ [])) none
          ∷ default (some (window 50 (from_hours 1) ∷ [])) none
          ∷ [])))

all_pass :
    (zero_default_rules_is_rejected ≡ true)
    × (multiple_default_rules_is_rejected ≡ true)
    × (default_rule_position_does_not_matter ≡ true)
    × (a_representative_config_loads_successfully ≡ true)
    × (rule_precedence_is_purely_positional_not_type_based ≡ true)
unfolding program
all_pass = (refl, refl, refl, refl, refl)
