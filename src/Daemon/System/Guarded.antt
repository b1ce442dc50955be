-- ===== src/Daemon/System/Guarded.antt =====
-- What the history of src/bin/postfix-ratelimitd.rs keeps, while every config file that is loaded limits
-- a user.
use postfix_ratelimitd.Base.{
  ℕ, ◌≡◌, inl, inr, refl, sym, ◌∙◌, subst, Bool, true, false, List, [], ◌∷◌, none, some, Outcome,
  ok, err, arith,
}
use postfix_ratelimitd.Base.Text.{Text, text_eq, text_eq_sound}
use postfix_ratelimitd.Config.Redis.{RedisApi, IsRedisApi}
use postfix_ratelimitd.Config.Rules.{RegexApi}
use postfix_ratelimitd.Config.Error.{ConfigError}
use postfix_ratelimitd.Config.Load.{FailureAction, defer, permit, Config, plan_for}
use postfix_ratelimitd.Config.Plan.Shape.{IsWellFormed}
use postfix_ratelimitd.Config.Plan.Spans.{Enforces, Enforces-is_empty}
use postfix_ratelimitd.Valkey.{Valkey, IsValkey}
use postfix_ratelimitd.Limiter.Log.{Event}
use postfix_ratelimitd.Limiter.Connect.{Reach}
use postfix_ratelimitd.Limiter.Check.{Delivery, RedisError, check_sasl}
use postfix_ratelimitd.Limiter.World.{World, check_step, elapse_step}
use postfix_ratelimitd.Limiter.World.Bound.{
  IsBounded, start-IsBounded, elapse_step-IsBounded, check_step-IsBounded,
}
use postfix_ratelimitd.Limiter.World.Dominance.{Dominated, check_step-Dominated, accepted-Dominated}
use postfix_ratelimitd.Protocol.{Request, sasl_username, recipient_count}
use postfix_ratelimitd.Daemon.Stats.{Journal}
use postfix_ratelimitd.Daemon.Request.{
  Action, dunno, rate_limited, service_unavailable, Answer, handle_request, conclude,
  answer_misconfigured, answer_unauthenticated,
}
use postfix_ratelimitd.Daemon.Request.Verdict.{refused, unauthenticated, limited, course}
use postfix_ratelimitd.Daemon.Reload.{
  RuntimeState, same_redis_connection, same_sym, same_trans, IsMatched, reload_config,
  reload_config-IsMatched,
}
use postfix_ratelimitd.Daemon.System.{passed_message}

-- How a check ends where an error turns mail away.
closed_cases :
    {D : Type 0} (P : Action → D → Type 0) (on_error : FailureAction) (j : Journal)
    (r : Outcome RedisError Bool × D)
    → on_error ≡ defer
    → (r.0 ≡ ok true → P dunno r.1)
    → P rate_limited r.1
    → P service_unavailable r.1
    → P (conclude on_error j r).action (conclude on_error j r).db
unfolding conclude
closed_cases P on_error j (ok true, d) closed passes turned fails = passes refl
closed_cases P on_error j (ok false, d) closed passes turned fails = turned
closed_cases P defer j (err e, d) closed passes turned fails = fails
closed_cases P permit j (err e, d) closed passes turned fails = absurd (cc)

module _ (R : RedisApi) (X : RegexApi) (V : Valkey) (laws : IsValkey V) (redis : IsRedisApi R)
    (home : R.Info) (key_prefix user : Text) (span limit : ℕ) where
  -- The configuration keeps its buckets at home, turns mail away on an error and limits the user.
  pub record Limits (config : Config R X) : Type 0 where
    pub prefix_is : config.redis_key_prefix ≡ key_prefix
    pub at_home : same_redis_connection R X config.redis_connection_info home ≡ true
    pub closed : config.on_redis_error ≡ defer
    pub shaped : (other : Text) → IsWellFormed (plan_for R X config other)
    pub enforced : Enforces span limit (plan_for R X config user).windows

  -- And the limiter beside it is connected there.
  pub record IsReady (state : RuntimeState R X) : Type 0 where
    pub prefix_is : state.limiter.key_prefix ≡ key_prefix
    pub at_home : same_redis_connection R X state.limiter.connection_info home ≡ true
    pub limits : Limits state.config

  IsReady-IsMatched : (state : RuntimeState R X) → IsReady state → IsMatched R X state
  IsReady-IsMatched state h = record {
    key_prefix = h.prefix_is ∙ sym h.limits.prefix_is;
    connection =
        same_trans R X redis _ home _ h.limits.at_home (same_sym R X redis _ home h.at_home);
  }

  pub reload_config-IsReady :
      (loaded : Outcome ConfigError (Config R X)) (reach : Reach) (current : RuntimeState R X)
      → ((config : Config R X) → loaded ≡ ok config → Limits config)
      → IsReady current
      → IsReady (reload_config R X loaded reach current).1
  reload_config-IsReady loaded reach current good h =
      let (matched, _, _, which) =
        reload_config-IsMatched R X redis loaded reach current (IsReady-IsMatched current h) in
      elim which [
        | inl same ↦ subst IsReady (sym same) h
        | inr (_, e) ↦
            let limits = good _ e in
            record {
              prefix_is = matched.key_prefix ∙ limits.prefix_is;
              at_home =
                  same_trans R X redis _ _ home (same_sym R X redis _ _ matched.connection)
                    limits.at_home;
              limits = limits;
            }
      ]

  -- A log that accounts for the database and for what has passed.
  pub record Accounts (passed : List Event) (db : V.Db) : Type 0 where
    pub log : List Event
    pub bounded : IsBounded V laws key_prefix user span limit (record { db = db; log = log })
    pub covers : Dominated user passed log

  pub nothing-Accounts : Accounts [] V.empty
  nothing-Accounts = record {
    log = [];
    bounded = start-IsBounded V laws key_prefix user span limit;
    covers = λ q. omega arith;
  }

  pub elapse-Accounts :
      (passed : List Event) (d : V.Db) (seconds : ℕ)
      → Accounts passed d
      → Accounts passed (V.elapse seconds d)
  unfolding elapse_step
  elapse-Accounts passed d seconds h = record {
    log = h.log;
    bounded =
        elapse_step-IsBounded V laws key_prefix user span limit (record { db = d; log = h.log })
          seconds h.bounded;
    covers = h.covers;
  }

  module _ (state : RuntimeState R X) (ready : IsReady state) (request : Request)
      (delivery : Delivery) (j : Journal) (d : V.Db) (passed : List Event)
      (h : Accounts passed d) where
    abbrev given : Answer (V.Db)
    given = handle_request R X V request state.config state.limiter.key_prefix delivery j d

    abbrev w : World V
    w = record { db = d; log = h.log }

    checked_answer :
        (sender : Text) (count : ℕ)
        → sasl_username request ≡ some sender
        → recipient_count request ≡ some count
        → let result =
            check_sasl V key_prefix sender count
              (plan_for R X state.config sender)
              none
              delivery
              d in
          Accounts
            (passed_message request
              (conclude state.config.on_redis_error j result).action
              (V.time d)
              passed)
            (conclude state.config.on_redis_error j result).db
    unfolding passed_message check_step
    checked_answer sender count named counted =
        let plan = plan_for R X state.config sender in
        let result = check_sasl V key_prefix sender count plan none delivery d in
        let shape = ready.limits.shaped sender in
        let enforced = λ (e : text_eq sender user ≡ true).
          subst (λ u. Enforces span limit (plan_for R X state.config u).windows)
            (sym (text_eq_sound sender user e)) ready.limits.enforced in
        let bounded =
          check_step-IsBounded V laws key_prefix user span limit w h.bounded plan shape count sender
            delivery enforced in
        let log = (check_step V key_prefix w sender plan count delivery).log in
        let quiet =
          check_step-Dominated V key_prefix w sender plan count delivery user passed h.covers in
        let silent : Accounts passed result.1 = record {
          log = log;
          bounded = bounded;
          covers = quiet;
        } in
        closed_cases (λ action db. Accounts (passed_message request action (V.time d) passed) db)
          state.config.on_redis_error j result ready.limits.closed
          (λ e.
            let heard =
              accepted-Dominated V key_prefix w sender plan count delivery user passed
                (λ own. Enforces-is_empty span limit plan shape.fits (enforced own)) e h.covers in
            let loud : Accounts
                (record { user = sender; at = V.time d; recipients = count } ∷ passed) result.1 =
              record { log = log; bounded = bounded; covers = heard } in
            rw (passed_message, named, counted) loud)
          silent silent

    -- An answer, whatever the network does, leaves what has passed accounted for.
    pub answer-Accounts : Accounts (passed_message request given.action (V.time d) passed) given.db
    unfolding passed_message answer_misconfigured answer_unauthenticated
    answer-Accounts =
        elim (course R X V request state.config state.limiter.key_prefix delivery j d) [
          | refused e ↦ rw e h
          | unauthenticated named e ↦ rw e (rw (passed_message, named) h)
          | limited sender count c e ↦
              rw (e, ready.prefix_is) (checked_answer sender count c.user_is c.recipients_are)
        ]
