-- ===== src/Limiter/World/History.antt =====
-- Senders over time while the configuration changes: each check of src/limiter.rs comes with the plan
-- that was in force for it.
use postfix_ratelimitd.Base.{ℕ, ◌+◌, ◌≤◌, ◌≡◌, true, List, [], ◌∷◌, All}
use postfix_ratelimitd.Base.Text.{Text, text_eq}
use postfix_ratelimitd.Config.Plan.{CheckPlan}
use postfix_ratelimitd.Config.Plan.Shape.{IsWellFormed}
use postfix_ratelimitd.Config.Plan.Spans.{Enforces}
use postfix_ratelimitd.Valkey.{Valkey, IsValkey}
use postfix_ratelimitd.Limiter.Log.{recorded_between}
use postfix_ratelimitd.Limiter.Check.{Delivery}
use postfix_ratelimitd.Limiter.World.{World, start, check_step, elapse_step}
use postfix_ratelimitd.Limiter.World.Bound.{
  IsBounded, start-IsBounded, check_step-IsBounded, elapse_step-IsBounded,
}

pub data Entry : Type 0 where
  planned_check : Text → CheckPlan → ℕ → Delivery → Entry
  pause : ℕ → Entry

module _ (V : Valkey) (key_prefix : Text) where
  pub history : World V → List Entry → World V
  history w [] = w
  history w (planned_check user plan count delivery ∷ entries) =
      history (check_step V key_prefix w user plan count delivery) entries
  history w (pause seconds ∷ entries) = history (elapse_step V key_prefix w seconds) entries

-- The plan of a check is one that `CheckPlan::new` can build, and a check of `user` enforces the limit.
abbrev pub Limits : Text → ℕ → ℕ → Entry → Type 0
Limits user span limit (pause seconds) = Unit
Limits user span limit (planned_check sender plan count delivery) =
    IsWellFormed plan × (text_eq sender user ≡ true → Enforces span limit plan.windows)

module _ (V : Valkey) (laws : IsValkey V) (key_prefix user : Text) (span limit : ℕ) where
  history-IsBounded :
      (w : World V) (entries : List Entry)
      → All (Limits user span limit) entries
      → IsBounded V laws key_prefix user span limit w
      → IsBounded V laws key_prefix user span limit (history V key_prefix w entries)
  unfolding history
  history-IsBounded w [] enforced h = h
  history-IsBounded w (pause seconds ∷ entries) enforced h =
      history-IsBounded (elapse_step V key_prefix w seconds) entries enforced.1
        (elapse_step-IsBounded V laws key_prefix user span limit w seconds h)
  history-IsBounded w (planned_check sender plan count delivery ∷ entries) enforced h =
      history-IsBounded (check_step V key_prefix w sender plan count delivery) entries enforced.1 (
        check_step-IsBounded V laws key_prefix user span limit w h plan enforced.0.0 count sender
          delivery enforced.0.1)

  -- From an empty database, after any checks of any senders, each against a plan of its own, with any
  -- lost requests and replies and with time passing between them: if every plan is well formed and
  -- every plan that `user` is checked against has a window of `span` seconds that is no less strict
  -- than `limit`, the recipients of `user` recorded in any interval of `span` seconds are at most
  -- `limit`, whatever else the plans say and however their keys differ. The server's clock is not set
  -- back.
  pub sliding_limit_reloaded :
      (entries : List Entry) (from : ℕ)
      → All (Limits user span limit) entries
      → recorded_between (history V key_prefix (start V) entries).log user from (from + span)
        ≤ limit
  sliding_limit_reloaded entries from enforced =
      let h =
        history-IsBounded (start V) entries enforced
          (start-IsBounded V laws key_prefix user span limit) in
      h.within from
