-- ===== src/Examples/Admin.antt =====
-- The control socket of src/control/mod.rs, with a stand-in for JSON: a line is a method's name.
use postfix_ratelimitd.Base.{
  ℕ, ◌≡◌, ◌≢◌, ◌↔◌, refl, true, false, List, [], ◌∷◌, some, is_empty, arith, All,
}
use postfix_ratelimitd.Base.Text.{Text, codes, text_eq}
use postfix_ratelimitd.Config.Load.{raw_config}
use postfix_ratelimitd.Config.Plan.{
  new, position, raise_at, merge_window, plan_at, push_key, add_window, add_windows,
}
use postfix_ratelimitd.Config.Bucket.{bucket_size}
use postfix_ratelimitd.Config.Window.{Window, from_hours}
use postfix_ratelimitd.Limiter.Keys.{
  contains_char, replace_char, escape_identity_value, identity, bucket_key,
}
use postfix_ratelimitd.Base.Decimal.{decimal}
use postfix_ratelimitd.Valkey.Memory.{memory}
use postfix_ratelimitd.Protocol.Reading.{Stream, closes}
use postfix_ratelimitd.Control.Status.{WindowStatus, limited, done, compute_sasl_status}
use postfix_ratelimitd.Control.Status.Agreement.{
  AllInRange, quiet_reads, HasRoom, enforced, compute_sasl_status-agrees,
}
use postfix_ratelimitd.Control.Serving.{
  JsonApi, Round, handle_line, handle_connection, panics, unfinished,
}
use postfix_ratelimitd.Control.Serving.Replies.{handle_line-answers}
use postfix_ratelimitd.Control.Serving.Ending.{handle_connection-finishes}
use postfix_ratelimitd.Examples.Settings.{literal, simple_redis, daemon_config, file, files, loads}

abbrev bare : JsonApi
bare = record {
  Value = Text;
  RequestId = ℕ;
  Request = Text;
  from_str = λ line. some line;
  to_request = λ value. some value;
  method = λ request. request;
  username = λ request. some (codes "bob");
  id = λ request. some 7;
}

abbrev round : Round bare simple_redis literal memory
round = record {
  cancelled = false;
  config = daemon_config;
  key_prefix = codes "p";
  at_time = some memory.empty;
  reads = some memory.empty ∷ [];
  written = true;
}

handle_line-answers_example :
    handle_line bare simple_redis literal memory (codes "limits.sasl") round ≢ panics
handle_line-answers_example =
    handle_line-answers bare simple_redis literal memory files (raw_config file)
      (codes "limits.sasl") round loads

abbrev line : Stream
line = record { bytes = codes "\n"; ending = closes }

handle_connection-finishes_example :
    (handle_connection bare simple_redis literal memory (round ∷ round ∷ []) line).ended
    ≢ unfinished
handle_connection-finishes_example =
    handle_connection-finishes bare simple_redis literal memory (round ∷ round ∷ []) line
      (omega arith)

abbrev weekly : List Window
weekly = record { count = 10; duration = from_hours 168 } ∷ []

abbrev seen : memory.Db
seen = memory.hincrby (codes "p:bucket:v1:sasl:bob:8192") 0 4 memory.empty

full : is_empty (new weekly).bucket_sizes ≡ false
unfolding new add_windows add_window plan_at push_key position merge_window raise_at bucket_size
full = refl

in_range : AllInRange memory (codes "p") (codes "bob") seen (new weekly).bucket_sizes
unfolding new add_windows add_window plan_at push_key position merge_window raise_at bucket_size
    memory bucket_key identity escape_identity_value contains_char replace_char decimal text_eq
in_range = ((omega arith, (omega arith, tt)), tt)

compute_sasl_status-agrees_example :
    (statuses : List WindowStatus) × (compute_sasl_status memory
        (codes "p")
        (new weekly)
        (codes "bob")
        (some seen)
        (quiet_reads memory (codes "p") (codes "bob") seen (new weekly).bucket_sizes)
      ≡ done (limited (memory.time seen) statuses))
    × (All (HasRoom memory (codes "p") (codes "bob") seen 3) statuses
        ↔ (enforced memory (codes "p") (codes "bob") seen 3 (new weekly) ≡ some 1))
compute_sasl_status-agrees_example =
    compute_sasl_status-agrees memory (codes "p") (codes "bob") seen weekly 3 full in_range
