-- ===== src/Control/Serving/Replies.antt =====
-- That the control socket of src/control/mod.rs answers.
use postfix_ratelimitd.Base.{◌≡◌, ◌≢◌, Option, arith, Bool-cases, Option-cases, inl, inr, refl}
use postfix_ratelimitd.Base.Text.{Text, text_eq}
use postfix_ratelimitd.Config.Redis.{RedisApi}
use postfix_ratelimitd.Config.Rules.{RegexApi}
use postfix_ratelimitd.Config.Rules.Choice.{choose}
use postfix_ratelimitd.Config.Load.{RawConfig, Files, returned, load_raw, plan_for}
use postfix_ratelimitd.Config.Load.Chosen.{load_raw-choose}
use postfix_ratelimitd.Base.{ok}
use postfix_ratelimitd.Valkey.{Valkey}
use postfix_ratelimitd.Control.Status.{StatusResult, done, failed, panicked, compute_sasl_status}
use postfix_ratelimitd.Control.Status.Total.{compute_sasl_status-returns}
use postfix_ratelimitd.Control.Serving.{
  JsonApi, panics, report_status, Round, dispatch, handle_line, ping_method, limits_sasl_method,
}

module _ (J : JsonApi) (R : RedisApi) (X : RegexApi) (V : Valkey) where
  report_status-returns :
      (id : Option J.RequestId) (s : StatusResult) → s ≢ panicked → report_status J id s ≢ panics
  unfolding report_status
  report_status-returns id (done s) h e = cc
  report_status-returns id failed h e = cc
  report_status-returns id panicked h e = h refl

  -- Under a configuration that was loaded from a file, any line at all, on any state of the server and
  -- of the network, has a response: none crashes the connection's task.
  pub handle_line-answers :
      (files : Files R X) (raw : RawConfig) (line : Text) (round : Round J R X V)
      → load_raw R X files raw ≡ returned (ok round.config)
      → handle_line J R X V line round ≢ panics
  unfolding handle_line dispatch
  handle_line-answers files raw line round loaded e = elim (Option-cases (J.from_str line)) [
    | inl a ↦ ground (arith, a, e)
    | inr (value, a) ↦ elim (Option-cases (J.to_request value)) [
      | inl b ↦ ground (arith, a, b, e)
      | inr (request, b) ↦ elim (Bool-cases (text_eq (J.method request) ping_method)) [
        | inl p ↦ ground (arith, a, b, p, e)
        | inr p ↦ elim (Bool-cases (text_eq (J.method request) limits_sasl_method)) [
          | inr q ↦ ground (arith, a, b, p, q, e)
          | inl q ↦ elim (Option-cases (J.username request)) [
            | inl u ↦ ground (arith, a, b, p, q, u, e)
            | inr (user, u) ↦
                let chosen = load_raw-choose R X files raw round.config loaded in
                let result =
                  compute_sasl_status V round.key_prefix (plan_for R X round.config user) user
                    round.at_time round.reads in
                let returns : result ≢ panicked = rw (chosen.2 user) (
                  compute_sasl_status-returns V round.key_prefix user
                    (choose X raw.sasl_limits chosen.0 user) round.at_time round.reads) in
                let answers = report_status-returns (J.id request) result returns in
                ground (arith, a, b, p, q, u, e, answers)
          ]
        ]
      ]
    ]
  ]
