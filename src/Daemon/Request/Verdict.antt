-- ===== src/Daemon/Request/Verdict.antt =====
-- What an answer of `handle_request` of src/bin/postfix-ratelimitd.rs says.
use postfix_ratelimitd.Base.{
  ℕ, ◌≡◌, ◌⊎◌, Bool, true, false, none, some, Outcome, ok, inl, inr, arith, refl, Bool-cases,
  Option-cases, Outcome-cases,
}
use postfix_ratelimitd.Base.Text.{Text}
use postfix_ratelimitd.Config.Redis.{RedisApi}
use postfix_ratelimitd.Config.Rules.{RegexApi}
use postfix_ratelimitd.Config.Load.{FailureAction, defer, permit, Config, plan_for}
use postfix_ratelimitd.Valkey.{Valkey}
use postfix_ratelimitd.Limiter.Check.{Delivery, RedisError, check_sasl}
use postfix_ratelimitd.Limiter.Check.Atomic.{rejected_unchanged}
use postfix_ratelimitd.Protocol.{
  Request, sasl_username, recipient_count, protocol_state, now_override,
}
use postfix_ratelimitd.Daemon.Stats.{Journal}
use postfix_ratelimitd.Daemon.Request.{
  dunno, rate_limited, misconfigured, wrong_state, Answer, conclude, handle_request,
  answer_misconfigured, answer_unauthenticated,
}

module _ (R : RedisApi) (X : RegexApi) (V : Valkey) (request : Request) (config : Config R X)
    (key_prefix : Text) (delivery : Delivery) (j : Journal) (d : V.Db) where
  abbrev pub answer : Answer (V.Db)
  answer = handle_request R X V request config key_prefix delivery j d

  -- What the limiter says of a user's message.
  abbrev pub checked : Text → ℕ → Outcome RedisError Bool × V.Db
  checked user recipients =
      check_sasl V key_prefix user recipients (plan_for R X config user) (now_override request)
        delivery d

  -- The request got as far as the limiter.
  pub record IsChecked (user : Text) (recipients : ℕ) : Type 0 where
    pub state : wrong_state (protocol_state request) ≡ false
    pub user_is : sasl_username request ≡ some user
    pub recipients_are : recipient_count request ≡ some recipients

  pub answer-checked :
      (user : Text) (recipients : ℕ)
      → IsChecked user recipients
      → answer ≡ conclude config.on_redis_error j (checked user recipients)
  unfolding handle_request
  answer-checked user recipients c = ground (arith, c.state, c.user_is, c.recipients_are)

  pub data Course : Type 0 where
    refused : answer ≡ answer_misconfigured j d → Course
    unauthenticated :
        sasl_username request ≡ none
        → answer ≡ answer_unauthenticated config.warn_on_unauthenticated j d
        → Course
    limited :
        (user : Text) (recipients : ℕ)
        → IsChecked user recipients
        → answer ≡ conclude config.on_redis_error j (checked user recipients)
        → Course

  pub course : Course
  unfolding handle_request
  course = elim (Bool-cases (wrong_state (protocol_state request))) [
    | inl e ↦ refused (rw (handle_request, e) refl)
    | inr e ↦ elim (Option-cases (sasl_username request)) [
      | inl f ↦ unauthenticated f (rw (handle_request, e, f) refl)
      | inr (user, f) ↦ elim (Option-cases (recipient_count request)) [
        | inl g ↦ refused (rw (handle_request, e, f, g) refl)
        | inr (recipients, g) ↦
            let c : IsChecked user recipients = record {
              state = e;
              user_is = f;
              recipients_are = g;
            } in
            limited user recipients c (answer-checked user recipients c)
      ]
    ]
  ]

  -- A message that is turned away, for its sender's limit or for the wiring, leaves the database as it was.
  pub refused_unchanged :
      (answer.action ≡ rate_limited) ⊎ (answer.action ≡ misconfigured) → answer.db ≡ d
  unfolding conclude answer_misconfigured answer_unauthenticated
  refused_unchanged h = elim course [
    | refused e ↦ ground (arith, e)
    | unauthenticated f e ↦ ground (arith, e)
    | limited user recipients c e ↦ elim (Outcome-cases (checked user recipients).0) [
      | inl (true, f) ↦ ground (arith, e, f)
      | inl (false, f) ↦
          let same =
            rejected_unchanged V key_prefix user recipients (plan_for R X config user)
              (now_override request) d delivery f in
          ground (arith, e, f, same)
      | inr (x, f) ↦ elim (action_cases config.on_redis_error) [
        | inl g ↦ ground (arith, e, f, g)
        | inr g ↦ ground (arith, e, f, g)
      ]
    ]
  ]
    where
      action_cases : (a : FailureAction) → (a ≡ defer) ⊎ (a ≡ permit)
      action_cases defer = inl refl
      action_cases permit = inr refl

  -- With `on_redis_error` at its default, an authenticated user's message passes only if the limiter
  -- accepted it: nothing that fails on the way lets it through.
  pub passes_only_accepted :
      (user : Text)
      → sasl_username request ≡ some user
      → config.on_redis_error ≡ defer
      → answer.action ≡ dunno
      → (recipients : ℕ) × (recipient_count request ≡ some recipients)
        × ((checked user recipients).0 ≡ ok true)
  unfolding conclude answer_misconfigured answer_unauthenticated
  passes_only_accepted user named closed h = elim course [
    | refused e ↦ absurd ground (arith, e)
    | unauthenticated f e ↦ absurd ground (arith, named, f)
    | limited user' recipients c e ↦ (
      recipients,
      c.recipients_are,
      elim (Outcome-cases (checked user' recipients).0) [
        | inl (true, f) ↦ ground (arith, f, named, c.user_is)
        | inl (false, f) ↦ absurd ground (arith, e, f)
        | inr (x, f) ↦ absurd ground (arith, e, f, closed)
      ],
    )
  ]
