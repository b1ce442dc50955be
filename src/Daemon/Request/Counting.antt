-- ===== src/Daemon/Request/Counting.antt =====
-- What `handle_request` of src/bin/postfix-ratelimitd.rs counts.
use postfix_ratelimitd.Base.{
  ℕ, ◌≡◌, ◌+◌, ◌<◌, Bool, true, false, Outcome, ok, err, inl, inr, arith, Bool-cases,
}
use postfix_ratelimitd.Base.Text.{Text}
use postfix_ratelimitd.Config.Redis.{RedisApi}
use postfix_ratelimitd.Config.Rules.{RegexApi}
use postfix_ratelimitd.Config.Load.{FailureAction, defer, permit, Config}
use postfix_ratelimitd.Valkey.{Valkey}
use postfix_ratelimitd.Limiter.Check.{Delivery, RedisError}
use postfix_ratelimitd.Protocol.{Request}
use postfix_ratelimitd.Daemon.Stats.{Stats, Journal, count, log_throttled, fetch_add}
use postfix_ratelimitd.Daemon.Request.{
  conclude, handle_request, answer_misconfigured, answer_unauthenticated,
}
use postfix_ratelimitd.Daemon.Request.Verdict.{refused, unauthenticated, limited, course}

-- The requests counted since the last report.
abbrev pub answered : Stats → ℕ
answered s =
    s.accepted + s.rejected + s.failed_deferred + s.failed_permitted + s.unauthenticated
    + s.misconfigured

module _ {D : Type 0} where
  conclude-answered :
      (on_error : FailureAction) (j : Journal) (o : Outcome RedisError Bool) (d : D)
      → answered j.stats < 18446744073709551615
      → answered (conclude on_error j (o, d)).journal.stats ≡ answered j.stats + 1
  unfolding conclude count log_throttled fetch_add
  conclude-answered on_error j (ok true) d h = omega arith
  conclude-answered on_error j (ok false) d h = omega arith
  conclude-answered defer j (err e) d h = omega arith
  conclude-answered permit j (err e) d h = omega arith

-- Every request is counted once: the six counters of its possible ends together go up by one, as
-- long as they stay below 2^64.
pub handle_request-counts :
    (R : RedisApi) (X : RegexApi) (V : Valkey) (request : Request) (config : Config R X)
    (key_prefix : Text) (delivery : Delivery) (j : Journal) (d : V.Db)
    → answered j.stats < 18446744073709551615
    → answered (handle_request R X V request config key_prefix delivery j d).journal.stats
      ≡ answered j.stats + 1
unfolding answer_misconfigured answer_unauthenticated count log_throttled fetch_add
handle_request-counts R X V request config key_prefix delivery j d h =
    elim (course R X V request config key_prefix delivery j d) [
      | refused e ↦ rw e omega arith
      | unauthenticated f e ↦ elim (Bool-cases config.warn_on_unauthenticated) [
        | inl w ↦ rw (e, w) omega arith
        | inr w ↦ rw (e, w) omega arith
      ]
      | limited user recipients c e ↦ rw e (conclude-answered config.on_redis_error j _ _ h)
    ]
