-- ===== src/Examples/Serving.antt =====
-- Requests as Postfix sends them (src/protocol.rs), served by the daemon of src/bin/postfix-ratelimitd.rs.
use postfix_ratelimitd.Base.{
  ℕ, ◌+◌, ◌≡◌, ◌≢◌, inr, refl, true, false, [], ◌∷◌, some, ok, arith, All, length, min, ltb,
  if◌then◌else◌,
}
use postfix_ratelimitd.Base.Text.{codes, text_eq, text_eq_refl, text_eq_sound}
use postfix_ratelimitd.Base.Decimal.{read_digits}
use postfix_ratelimitd.Config.Plan.{new}
use postfix_ratelimitd.Config.Redis.{IsRedisApi}
use postfix_ratelimitd.Config.Rules.{first_match, matches}
use postfix_ratelimitd.Config.Load.{Config, plan_for}
use postfix_ratelimitd.Valkey.Memory.{memory}
use postfix_ratelimitd.Limiter.Support.{known}
use postfix_ratelimitd.Limiter.Connect.{Reach}
use postfix_ratelimitd.Limiter.Check.{answered, lost_request, check_sasl}
use postfix_ratelimitd.Protocol.{
  Request, Attributes, sasl_username, recipient_count, protocol_state, get, insert, is_whitespace,
}
use postfix_ratelimitd.Protocol.Reading.{Stream, closes, request, read_from, max_request_bytes}
use postfix_ratelimitd.Protocol.Reading.Cap.{IsWithin, read_from-IsWithin}
use postfix_ratelimitd.Protocol.Reading.Roundtrip.{
  IsAttribute, encode, insert_all, read_from-encode,
}
use postfix_ratelimitd.Daemon.Stats
use postfix_ratelimitd.Daemon.Stats.{unauthenticated, LogKind, no_stats, Journal}
use postfix_ratelimitd.Daemon.Stats.Throttle.{
  occurrences, written_lines, notices, log_throttled_interval,
}
use postfix_ratelimitd.Daemon.Request.{dunno, misconfigured, handle_request}
use postfix_ratelimitd.Daemon.Request.Verdict.{
  answer, checked, refused_unchanged, passes_only_accepted,
}
use postfix_ratelimitd.Daemon.Request.Counting.{answered as requests_counted, handle_request-counts}
use postfix_ratelimitd.Daemon.Request.Serving.{
  Round, handle_connection, unfinished, handle_connection-ends,
}
use postfix_ratelimitd.Daemon.Request.Serving.Pipeline.{
  encode_all, answer_each, handle_connection-eq-answer_each,
}
use postfix_ratelimitd.Daemon.Reload.{RuntimeState, reloaded as has_reloaded, reload_config}
use postfix_ratelimitd.Examples.Settings.{literal, simple_redis, daemon_config}

abbrev sent : Attributes
sent =
    (codes "protocol_state", codes "DATA")
    ∷ (codes "sasl_username", codes " alice")
    ∷ (codes "recipient_count", codes "3")
    ∷ (codes "ccert_subject", 90 ∷ 111 ∷ 235 ∷ 8364 ∷ 128007 ∷ [])
    ∷ []

abbrev wire : Stream
wire = record { bytes = encode sent (codes "more"); ending = closes }

plain : All IsAttribute sent
plain = ground arith

read_from-encode_example :
    read_from wire
    ≡ request
        (record { attributes = insert_all sent [] })
        (record { bytes = codes "more"; ending = closes })
read_from-encode_example = read_from-encode sent (codes "more") closes plain (omega arith)

read_from-IsWithin_example : IsWithin max_request_bytes (length wire.bytes) (read_from wire)
read_from-IsWithin_example = read_from-IsWithin wire

abbrev pub quiet : Journal
quiet = record { stats = no_stats; lines = [] }

log_throttled_interval_example :
    (Stats.load unauthenticated (occurrences 9 unauthenticated LogKind.unauthenticated quiet).stats
      ≡ 9)
    × (written_lines (occurrences 9 unauthenticated LogKind.unauthenticated quiet).lines
        ≡ 0 + min 9 5)
    × (notices (occurrences 9 unauthenticated LogKind.unauthenticated quiet).lines
        ≡ 0 + (if ltb 5 9 then 1 else 0))
log_throttled_interval_example =
    log_throttled_interval 9 unauthenticated LogKind.unauthenticated quiet refl (omega arith)

abbrev alices : Request
alices = record { attributes = insert_all sent [] }

abbrev at_rcpt : Request
at_rcpt = record { attributes = (codes "protocol_state", codes "RCPT") ∷ [] }

turned_away :
    (answer simple_redis literal memory at_rcpt daemon_config
      (codes "p")
      answered
      quiet
      memory.empty).action
    ≡ misconfigured
unfolding handle_request protocol_state get text_eq
turned_away = refl

refused_unchanged_example :
    (answer simple_redis literal memory at_rcpt daemon_config
      (codes "p")
      answered
      quiet
      memory.empty).db
    ≡ memory.empty
refused_unchanged_example =
    refused_unchanged simple_redis literal memory at_rcpt daemon_config (codes "p") answered quiet
      memory.empty (inr turned_away)

alice_named : sasl_username alices ≡ some (codes "alice")
unfolding sasl_username text_eq insert is_whitespace
alice_named = refl

alice_passes :
    (answer simple_redis literal memory alices daemon_config
      (codes "p")
      answered
      quiet
      memory.empty).action
    ≡ dunno
unfolding handle_request protocol_state sasl_username recipient_count get text_eq plan_for
    first_match matches new check_sasl insert is_whitespace read_digits
alice_passes = refl

passes_only_accepted_example :
    (recipients : ℕ) × (recipient_count alices ≡ some recipients)
    × ((checked simple_redis literal memory alices daemon_config
          (codes "p")
          answered
          quiet
          memory.empty
          (codes "alice")
          recipients).0
        ≡ ok true)
passes_only_accepted_example =
    passes_only_accepted simple_redis literal memory alices daemon_config (codes "p") answered quiet
      memory.empty (codes "alice") alice_named refl alice_passes

handle_request-counts_example :
    requests_counted
      (handle_request simple_redis literal memory alices daemon_config
        (codes "p")
        lost_request
        quiet
        memory.empty).journal.stats
    ≡ 0 + 1
handle_request-counts_example =
    handle_request-counts simple_redis literal memory alices daemon_config (codes "p") lost_request
      quiet memory.empty (omega arith)

abbrev round : Round simple_redis literal memory
round = record {
  cancelled = false;
  config = daemon_config;
  key_prefix = codes "p";
  delivery = answered;
  written = true;
}

abbrev short : Stream
short = record { bytes = codes "\n"; ending = closes }

handle_connection-ends_example :
    (handle_connection simple_redis literal memory
      (round ∷ round ∷ [])
      short
      quiet
      memory.empty).ended
    ≢ unfinished
handle_connection-ends_example =
    handle_connection-ends simple_redis literal memory (round ∷ round ∷ []) short quiet memory.empty
      (omega arith)

pub lawful : IsRedisApi simple_redis
lawful = record {
  addr = (
    λ a. text_eq_refl a.0,
    λ a b h. rw (text_eq_sound a.0 b.0 h) (text_eq_refl b.0),
    λ a b c h k. rw (text_eq_sound a.0 b.0 h) k,
  );
  db = (λ a. refl, λ a b h. refl, λ a b c h k. refl);
  username = (λ a. refl, λ a b h. refl, λ a b c h k. refl);
  password = (λ a. refl, λ a b h. refl, λ a b c h k. refl);
  protocol = (λ a. refl, λ a b h. refl, λ a b c h k. refl);
}

abbrev running : RuntimeState simple_redis literal
running = record {
  config = daemon_config;
  limiter = record {
    connection_info = daemon_config.redis_connection_info;
    key_prefix = daemon_config.redis_key_prefix;
  };
}

abbrev pub reachable : Reach
reachable = record {
  opens = true;
  connects = true;
  command_info = some (known ∷ known ∷ known ∷ known ∷ known ∷ known ∷ known ∷ []);
}

abbrev next : RuntimeState simple_redis literal
next = (reload_config simple_redis literal (ok daemon_config) reachable running).1

abbrev two : Stream
two = record { bytes = encode_all (sent ∷ sent ∷ []); ending = closes }

handle_connection-eq-answer_each_example :
    handle_connection simple_redis literal memory
      (round ∷ round ∷ round ∷ [])
      two
      quiet
      memory.empty
    ≡ answer_each simple_redis literal memory
        (round ∷ round ∷ round ∷ [])
        (sent ∷ sent ∷ [])
        quiet
        memory.empty
handle_connection-eq-answer_each_example =
    handle_connection-eq-answer_each simple_redis literal memory (round ∷ round ∷ round ∷ [])
      (sent ∷ sent ∷ []) quiet memory.empty ((plain, omega arith), ((plain, omega arith), tt))
      ((refl, refl), ((refl, refl), ((refl, refl), tt)))
