-- ===== src/Limiter/World/Sliding.antt =====
-- The promise of the rate limiter: no sliding window of a sender ever holds more recorded recipients
-- than its limit. (src/limiter.rs, lua/check_and_record.lua and the plan of src/config.rs.)
use postfix_ratelimitd.Base.{ℕ, ◌+◌, List, [], ◌∷◌, All}
use postfix_ratelimitd.Base.Text.{Text, text_eq_sound}
use postfix_ratelimitd.Base.{sym, subst}
use postfix_ratelimitd.Config.Window.{Window}
use postfix_ratelimitd.Config.Plan.{new}
use postfix_ratelimitd.Config.Plan.Shape.{new-IsWellFormed}
use postfix_ratelimitd.Config.Plan.Spans.{Configures, new-Enforces, Enforces, All-Configures}
use postfix_ratelimitd.Config.Plan.Admission.{AdmitsWindow}
use postfix_ratelimitd.Valkey.{Valkey, IsValkey}
use postfix_ratelimitd.Limiter.Log.{recorded_between}
use postfix_ratelimitd.Limiter.World.{World, Call, check, elapse, start, plan_of, step, run}
use postfix_ratelimitd.Limiter.World.Bound.{
  IsBounded, start-IsBounded, check_step-IsBounded, elapse_step-IsBounded,
}

module _ (V : Valkey) (laws : IsValkey V) (key_prefix : Text)
    (windows_of : Text → List Window) where
  module _ (user : Text) (span limit : ℕ)
      (configured : Configures span limit (windows_of user)) where
    step-IsBounded :
        (w : World V) (call : Call)
        → IsBounded V laws key_prefix user span limit w
        → IsBounded V laws key_prefix user span limit (step V key_prefix windows_of w call)
    unfolding step
    step-IsBounded w (elapse seconds) h =
        elapse_step-IsBounded V laws key_prefix user span limit w seconds h
    step-IsBounded w (check sender count delivery) h =
        check_step-IsBounded V laws key_prefix user span limit w h
          (plan_of V key_prefix windows_of sender) (new-IsWellFormed (windows_of sender)) count
          sender delivery
          λ e.
            subst (λ u. Enforces span limit (new (windows_of u)).windows)
              (sym (text_eq_sound sender user e))
              (new-Enforces span limit (windows_of user) configured)

    run-IsBounded :
        (w : World V) (calls : List Call)
        → IsBounded V laws key_prefix user span limit w
        → IsBounded V laws key_prefix user span limit (run V key_prefix windows_of w calls)
    unfolding run
    run-IsBounded w [] h = h
    run-IsBounded w (call ∷ calls) h =
        run-IsBounded (step V key_prefix windows_of w call) calls (step-IsBounded w call h)

  -- From an empty database, after any checks of any senders, with any lost requests and replies, and
  -- with time passing between them: for every sender and every configured window of the sender, the
  -- recipients recorded in any interval as long as the window are at most the window's count. The
  -- configuration is fixed and the server's clock is not set back.
  pub sliding_limit :
      (calls : List Call) (user : Text) (from : ℕ)
      → All
          (AdmitsWindow (λ span.
            recorded_between
              (run V key_prefix windows_of (start V) calls).log
              user
              from
              (from + span)))
          (windows_of user)
  sliding_limit calls user from = All-Configures _ (windows_of user) λ span limit configured.
      let h =
        run-IsBounded user span limit configured (start V) calls
          (start-IsBounded V laws key_prefix user span limit) in
      h.within from
