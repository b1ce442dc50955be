-- ===== src/Examples/Settings.antt =====
-- The configuration of src/config.rs: a file with two rules, and simple stand-ins for the crates.
use postfix_ratelimitd.Base.{
  ℤ, pos, ◌≡◌, ◌≤◌, ◌<◌, ◌↔◌, ◌⊎◌, ◌*◌, ◌/◌, ◌^◌, refl, true, List, [], ◌∷◌, Option, none, some, ok,
  arith, All, is_empty, if◌then◌else◌,
}
use postfix_ratelimitd.Base.Text.{Text, codes, text_eq}
use postfix_ratelimitd.Config.Window.{Window, from_hours}
use postfix_ratelimitd.Config.Bucket.{bucket_size}
use postfix_ratelimitd.Config.Bucket.Size.{IsPowerOfTwo, bucket_size_bounds, bucket_size-greatest}
use postfix_ratelimitd.Config.Plan.{
  new, position, raise_at, merge_window, plan_at, push_key, add_window, add_windows,
}
use postfix_ratelimitd.Config.Plan.Shape.{IsWellFormed, new-IsWellFormed}
use postfix_ratelimitd.Config.Plan.Admission.{Admits, AdmitsWindow, new-Admits}
use postfix_ratelimitd.Config.Redis.{RedisApi}
use postfix_ratelimitd.Config.Rules.{
  RegexApi, RawSaslLimitRule, username, regex, default, count_default, compile_rules, compile_rule,
  build_plan, validate_windows, nothing_compiled,
}
use postfix_ratelimitd.Config.Rules.Choice.{choose, default_windows}
use postfix_ratelimitd.Config.Load.{
  TomlConfig, RawConfig, raw_config, Loaded, returned, panicked, Config, Files, load_raw, load,
  plan_for,
}
use postfix_ratelimitd.Config.Load.Chosen.{load_raw-choose}

-- A pattern matches itself alone, and the empty one does not compile.
abbrev pub literal : RegexApi
literal = record {
  Regex = Text;
  compile = λ source. if is_empty source then none else some source;
  is_match = text_eq;
}

-- The settings are a database and a password, and an address has the default ones.
abbrev pub simple_redis : RedisApi
simple_redis = record {
  Info = Text × (ℤ × Option Text);
  Settings = ℤ × Option Text;
  parse_url = λ url. if is_empty url then none else some (url, (pos 0, none));
  redis_settings = λ info. info.1;
  set_redis_settings = λ settings info. (info.0, settings);
  set_db = λ db settings. (db, settings.1);
  password = λ settings. settings.1;
  set_password = λ password settings. (settings.0, some password);
  same_addr = λ a b. text_eq a.0 b.0;
  same_db = λ a b. true;
  same_username = λ a b. true;
  same_password = λ a b. true;
  same_protocol = λ a b. true;
}

abbrev pub hourly : List Window
hourly = record { count = 10; duration = from_hours 1 } ∷ []

abbrev pub rules : List RawSaslLimitRule
rules = username (codes "alice") none (some true) ∷ default (some hourly) none ∷ []

abbrev pub file : TomlConfig
file = record {
  url = codes "redis://localhost";
  db = none;
  password_file = some (codes "/pw");
  key_prefix = none;
  socket = codes "/run/policy";
  on_redis_error = none;
  warn_on_unauthenticated = none;
  control_socket = some (codes "/run/control");
  sasl = rules;
}

abbrev pub files : Files simple_redis literal
files = record { read_to_string = λ path. some (codes "secret\n"); from_str = λ text. some file }

abbrev pub daemon_config : Config simple_redis literal
daemon_config = record {
  redis_connection_info = (codes "redis://localhost", (pos 0, some (codes "secret")));
  redis_key_prefix = codes "postfix-ratelimitd";
  on_redis_error = postfix_ratelimitd.Config.Load.defer;
  warn_on_unauthenticated = true;
  socket = codes "/run/policy";
  control_socket = some (codes "/run/control");
  sasl_limits =
      record {
        matcher = postfix_ratelimitd.Config.Rules.SaslMatcher.username (codes "alice");
        plan = new [];
      }
      ∷ [];
  default_plan = new hourly;
}

pub loads : load_raw simple_redis literal files (raw_config file) ≡ returned (ok daemon_config)
unfolding load_raw load raw_config plan_for compile_rules compile_rule build_plan validate_windows
    count_default new add_windows add_window plan_at push_key position merge_window raise_at
    bucket_size text_eq
loads = refl

pub loaded : load simple_redis literal files (codes "/etc/conf") ≡ returned (ok daemon_config)
unfolding load_raw load raw_config plan_for compile_rules compile_rule build_plan validate_windows
    count_default new add_windows add_window plan_at push_key position merge_window raise_at
    bucket_size text_eq
loaded = refl

load_raw-choose_example :
    (fallback : List Window) × (default_windows literal rules none ≡ some (new fallback))
    × ((user : Text)
        → plan_for simple_redis literal daemon_config user
          ≡ new (choose literal rules fallback user))
unfolding raw_config
load_raw-choose_example =
    load_raw-choose simple_redis literal files (raw_config file) daemon_config loads

new-IsWellFormed_example : IsWellFormed (new hourly)
new-IsWellFormed_example = new-IsWellFormed hourly

new-Admits_example :
    All (Admits (λ span. span / 600)) (new hourly).windows
    ↔ All (AdmitsWindow (λ span. span / 600)) hourly
new-Admits_example = new-Admits (λ span. span / 600) hourly

bucket_size_bounds_example :
    IsPowerOfTwo (bucket_size (from_hours 1))
    × (0 < bucket_size (from_hours 1))
    × (bucket_size (from_hours 1) ≤ 86400)
    × ((bucket_size (from_hours 1) ≡ 1) ⊎ (50 * bucket_size (from_hours 1) ≤ 3600))
bucket_size_bounds_example = bucket_size_bounds (from_hours 1)

bucket_size-greatest_example : 2 ^ 6 ≤ bucket_size (from_hours 1)
bucket_size-greatest_example = bucket_size-greatest (from_hours 1) 6 (omega arith) (omega arith)
