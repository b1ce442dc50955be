-- ===== src/Daemon/Request.antt =====
-- src/bin/postfix-ratelimitd.rs: `handle_request`, and the loop of `handle_connection`.
pub mod Verdict
pub mod Counting
pub mod Serving
use postfix_ratelimitd.Base.{
  ℕ, Bool, true, false, not, ◌&&◌, ◌||◌, List, [], ◌∷◌, Option, none, some, Outcome, ok, err,
  if◌then◌else◌,
}
use postfix_ratelimitd.Base.Text.{Text, codes, text_eq}
use postfix_ratelimitd.Config.Redis.{RedisApi}
use postfix_ratelimitd.Config.Rules.{RegexApi}
use postfix_ratelimitd.Config.Load.{FailureAction, defer, permit, Config, plan_for}
use postfix_ratelimitd.Valkey.{Valkey}
use postfix_ratelimitd.Limiter.Check.{Delivery, RedisError, check_sasl}
use postfix_ratelimitd.Protocol.{
  Request, sasl_username, recipient_count, protocol_state, now_override,
}
use postfix_ratelimitd.Daemon.Stats.{
  LogKind, wiring, redis_error, Counter, accepted, rejected, failed_deferred, failed_permitted,
  Journal, count, log_throttled,
}

-- The policy responses of src/lib.rs.
pub data Action : Type 0 where
  dunno service_unavailable rate_limited misconfigured : Action

abbrev pub action_text : Action → Text
action_text dunno = codes "dunno"
action_text service_unavailable = codes "defer_if_permit Service temporarily unavailable"
action_text rate_limited = codes "defer_if_permit Recipient rate limit exceeded, retry later"
action_text Action.misconfigured =
    codes
      "defer_if_permit Rate limit service misconfigured or broken, check smtpd_data_restrictions/smtpd_end_of_data_restrictions wiring - see the README"

-- `EXPECTED_PROTOCOL_STATES.contains`
abbrev pub is_expected : Text → Bool
is_expected state = text_eq (codes "DATA") state || text_eq (codes "END-OF-MESSAGE") state

-- `is_some_and(|state| !EXPECTED_PROTOCOL_STATES.contains(&state))`
pub wrong_state : Option Text → Bool
wrong_state none = false
wrong_state (some state) = not (is_expected state)

-- An answer, the journal and the database.
pub record Answer (D : Type 0) : Type 0 where
  pub action : Action
  pub journal : Journal
  pub db : D

module _ {D : Type 0} where
  -- The end of `handle_request`, on what the limiter returned.
  unfoldable pub conclude : FailureAction → Journal → Outcome RedisError Bool × D → Answer D
  unfolding count log_throttled
  conclude on_error j (ok true, d) = record { action = dunno; journal = count accepted j; db = d }
  conclude on_error j (ok false, d) = record {
    action = rate_limited;
    journal = count rejected j;
    db = d;
  }
  conclude defer j (err e, d) = record {
    action = service_unavailable;
    journal = log_throttled failed_deferred redis_error j;
    db = d;
  }
  conclude permit j (err e, d) = record {
    action = dunno;
    journal = log_throttled failed_permitted redis_error j;
    db = d;
  }

  unfoldable pub answer_misconfigured : Journal → D → Answer D
  unfolding log_throttled
  answer_misconfigured j d = record {
    action = Action.misconfigured;
    journal = log_throttled Counter.misconfigured wiring j;
    db = d;
  }

  unfoldable pub answer_unauthenticated : Bool → Journal → D → Answer D
  unfolding log_throttled count
  answer_unauthenticated warn j d = record {
    action = dunno;
    journal =
        if warn
        then log_throttled Counter.unauthenticated LogKind.unauthenticated j
        else count Counter.unauthenticated j;
    db = d;
  }

module _ (R : RedisApi) (X : RegexApi) (V : Valkey) where
  -- The limiter is its key prefix and the database it is connected to.
  unfoldable pub handle_request :
      Request → Config R X → Text → Delivery → Journal → V.Db → Answer (V.Db)
  unfolding wrong_state answer_misconfigured answer_unauthenticated conclude
  handle_request request config key_prefix delivery j d =
      if wrong_state (protocol_state request)
      then answer_misconfigured j d
      else elim (sasl_username request) [
        | none ↦ answer_unauthenticated config.warn_on_unauthenticated j d
        | some user ↦ elim (recipient_count request) [
          | none ↦ answer_misconfigured j d
          | some recipients ↦ conclude config.on_redis_error j (
              check_sasl V key_prefix user recipients (plan_for R X config user)
                (now_override request) delivery d)
        ]
      ]
