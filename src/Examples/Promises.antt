-- ===== src/Examples/Promises.antt =====
-- The limiter of src/limiter.rs and the daemon of src/bin/postfix-ratelimitd.rs while the configuration is
-- reloaded: bob may reach 10 recipients an hour.
use mathlib.Core.Option.{some-injective}
use postfix_ratelimitd.Base.{◌+◌, ◌≤◌, ◌≡◌, refl, map, List, [], ◌∷◌, arith, All, inl, inr, subst}
use postfix_ratelimitd.Base.Text.{Text, codes, text_eq}
use postfix_ratelimitd.Base.Decimal.{read_digits, decimal}
use postfix_ratelimitd.Config.Window.{Window, from_hours}
use postfix_ratelimitd.Config.Plan.{
  new, position, raise_at, merge_window, plan_at, push_key, add_window, add_windows,
}
use postfix_ratelimitd.Config.Plan.Shape.{new-IsWellFormed}
use postfix_ratelimitd.Config.Plan.Spans.{new-Enforces}
use postfix_ratelimitd.Config.Bucket.{bucket_size}
use postfix_ratelimitd.Config.Rules.{
  compile_rules, compile_rule, build_plan, validate_windows, count_default, first_match, matches,
  is_default,
}
use postfix_ratelimitd.Config.Load.{raw_config, load_raw, load, plan_for, connection}
use postfix_ratelimitd.Valkey.Memory.{memory, memory-IsValkey}
use postfix_ratelimitd.Limiter.Log.{recorded_between}
use postfix_ratelimitd.Limiter.Keys.{
  contains_char, replace_char, escape_identity_value, identity, bucket_key,
}
use postfix_ratelimitd.Limiter.Script.{
  lower, min_id, stale, may_be_stale, prune, record_key, record_keys, run_script, check_windows,
  window_total, add_counted,
}
use postfix_ratelimitd.Limiter.Check.{answered, lost_reply, check_sasl, deliver, read_reply}
use postfix_ratelimitd.Limiter.World.{start}
use postfix_ratelimitd.Limiter.World.History.{
  Entry, planned_check, pause, history, Limits, sliding_limit_reloaded,
}
use postfix_ratelimitd.Protocol.{
  Request, sasl_username, recipient_count, protocol_state, get, insert, is_whitespace,
}
use postfix_ratelimitd.Daemon.Request.{handle_request}
use postfix_ratelimitd.Daemon.System
use postfix_ratelimitd.Daemon.Reload.{same_redis_connection, reload_config}
use postfix_ratelimitd.Daemon.System.{
  Occurrence, receive, answer, hangup, elapse, reloads, passed_message, occur, occur_all, started,
}
use postfix_ratelimitd.Daemon.System.Promise.{FileLimits, PathLimits}
use postfix_ratelimitd.Examples.Settings.{literal, simple_redis, hourly, file, files, daemon_config}
use postfix_ratelimitd.Examples.Serving.{quiet, reachable}

abbrev pub prefix : Text
prefix = codes "postfix-ratelimitd"

abbrev pub bob : Text
bob = codes "bob"

abbrev stricter : List Window
stricter =
    record { count = 50; duration = from_hours 24 }
    ∷ record { count = 5; duration = from_hours 1 }
    ∷ []

-- Before the reload 10 an hour, after it 5 an hour and 50 a day.
abbrev entries : List Entry
entries =
    planned_check bob (new hourly) 4 answered
    ∷ pause 60
    ∷ planned_check bob (new stricter) 1 lost_reply
    ∷ pause 60
    ∷ []

entries-Limits : All (Limits bob 3600 10) entries
entries-Limits = (
  (new-IsWellFormed hourly, λ e. new-Enforces 3600 10 hourly (inl (refl, omega arith))),
  (
    tt,
    (
      (
        new-IsWellFormed stricter,
        λ e. new-Enforces 3600 10 stricter (inr (inl (refl, omega arith))),
      ),
      (tt, tt),
    ),
  ),
)

sliding_limit_reloaded_example :
    recorded_between (history memory prefix (start memory) entries).log bob 0 (0 + 3600) ≤ 10
sliding_limit_reloaded_example =
    sliding_limit_reloaded memory memory-IsValkey prefix bob 3600 10 entries 0 entries-Limits

-- The daemon
abbrev pub bobs : Request
bobs = record {
  attributes =
      (codes "protocol_state", codes "DATA")
      ∷ (codes "sasl_username", codes "bob")
      ∷ (codes "recipient_count", codes "4")
      ∷ [];
}

abbrev pub path : Text
path = codes "/etc/conf"

abbrev happened : List (Occurrence simple_redis literal memory)
happened =
    receive bobs
    ∷ receive bobs
    ∷ hangup files path reachable
    ∷ answer 1 answered
    ∷ elapse 60
    ∷ answer 0 answered
    ∷ receive bobs
    ∷ answer 0 answered
    ∷ []

files-limit :
    FileLimits simple_redis literal memory daemon_config.redis_connection_info prefix bob 3600 10
      files
      (raw_config file)
unfolding raw_config is_default text_eq connection same_redis_connection
files-limit = record {
  prefix_is = refl;
  at_home = λ info e. ground (arith, e);
  closed = refl;
  limited = (λ h. elim h [ inl e ↦ cc | inr e ↦ cc ], (λ h. inl (refl, omega arith), tt));
}

pub path-Limits :
    PathLimits simple_redis literal memory daemon_config.redis_connection_info prefix bob 3600 10
      files path
path-Limits text other there parsed =
    subst
      (λ f.
        FileLimits simple_redis literal memory daemon_config.redis_connection_info prefix bob 3600
          10 files (raw_config f))
      (some-injective file other parsed) files-limit

-- Two of bob's three messages pass: the third would make twelve recipients in an hour.
two_pass :
    map
      (λ e. e.recipients)
      (occur_all simple_redis literal memory
        (started simple_redis literal memory daemon_config quiet)
        happened).passed
    ≡ 4 ∷ 4 ∷ []
unfolding occur_all occur System.answered reloads passed_message reload_config same_redis_connection
    handle_request protocol_state sasl_username recipient_count get insert is_whitespace read_digits
    load_raw load raw_config plan_for first_match matches compile_rules compile_rule build_plan
    validate_windows count_default is_default connection check_sasl run_script memory new
    add_windows add_window plan_at push_key position merge_window raise_at bucket_size bucket_key
    identity escape_identity_value contains_char replace_char decimal check_windows window_total
    add_counted record_keys record_key prune stale may_be_stale min_id lower text_eq deliver
    read_reply
two_pass = refl
