-- ===== src/Limiter/World/Kept.antt =====
-- Under a fixed configuration of src/config.rs, whatever is checked keeps the buckets of every window.
use postfix_ratelimitd.Base.{
  All, All-weaken, ◌++◌, ◌≤◌, ℕ, ◌≡◌, refl, arith, sym, subst, List, [], ◌∷◌,
}
use postfix_ratelimitd.Base.Text.{Text, text_eq_sound}
use postfix_ratelimitd.Config.Window.{Window}
use postfix_ratelimitd.Config.Plan.{PlannedWindow, new}
use postfix_ratelimitd.Config.Plan.Shape.{Fits, new-IsWellFormed}
use postfix_ratelimitd.Config.Plan.Spans.{size_of, Keeps, Fits-Keeps}
use postfix_ratelimitd.Valkey.{Valkey, IsValkey}
use postfix_ratelimitd.Limiter.World.{
  World, Call, check, elapse, elapse_step, start, plan_of, step, run,
}
use postfix_ratelimitd.Limiter.World.Invariant.{Holds, start-Holds, elapse-Holds}
use postfix_ratelimitd.Limiter.World.Steps.{check_step-Holds, check_step-past}

module _ (V : Valkey) (laws : IsValkey V) (key_prefix : Text)
    (windows_of : Text → List Window) where
  -- Every window of every sender has buckets that say what the log says.
  abbrev pub AllHold : World V → Type 0
  AllHold w =
      (user : Text) (win : PlannedWindow)
      → Fits (plan_of V key_prefix windows_of user) win
      → Holds V key_prefix user (size_of win.span_secs) win.span_secs w

  pub start-AllHold : AllHold (start V)
  start-AllHold user win f =
      start-Holds V laws key_prefix user (size_of win.span_secs) win.span_secs

  step-AllHold :
      (w : World V) (call : Call) → AllHold w → AllHold (step V key_prefix windows_of w call)
  unfolding step
  step-AllHold w (elapse seconds) v user win f =
      elapse-Holds V laws key_prefix user (size_of win.span_secs) win.span_secs w (v user win f)
        seconds
  step-AllHold w (check sender count delivery) v user win f =
      check_step-Holds V laws key_prefix w sender (plan_of V key_prefix windows_of sender)
        (new-IsWellFormed (windows_of sender)) count delivery user (size_of win.span_secs)
        win.span_secs
        (λ e.
          subst (λ u. Keeps (new (windows_of u)) (size_of win.span_secs) win.span_secs)
            (sym (text_eq_sound sender user e))
            (Fits-Keeps (plan_of V key_prefix windows_of user) win f))
        (v user win f)

  pub run-AllHold :
      (w : World V) (calls : List Call) → AllHold w → AllHold (run V key_prefix windows_of w calls)
  unfolding run
  run-AllHold w [] v = v
  run-AllHold w (call ∷ calls) v =
      run-AllHold (step V key_prefix windows_of w call) calls (step-AllHold w call v)

  abbrev pub IsPast : World V → Type 0
  IsPast w = All (λ e. e.at ≤ V.time w.db) w.log

  step-IsPast :
      (w : World V) (call : Call) → IsPast w → IsPast (step V key_prefix windows_of w call)
  unfolding step elapse_step
  step-IsPast w (elapse seconds) past =
      All-weaken _ _ w.log (λ e le. omega (arith, laws.time-elapse seconds w.db)) past
  step-IsPast w (check sender count delivery) past =
      check_step-past V laws key_prefix w sender (plan_of V key_prefix windows_of sender)
        (new-IsWellFormed (windows_of sender)) count delivery past

  pub run-IsPast :
      (w : World V) (calls : List Call) → IsPast w → IsPast (run V key_prefix windows_of w calls)
  unfolding run
  run-IsPast w [] past = past
  run-IsPast w (call ∷ calls) past =
      run-IsPast (step V key_prefix windows_of w call) calls (step-IsPast w call past)

  pub run-elapse :
      (w : World V) (calls : List Call) (seconds : ℕ)
      → run V key_prefix windows_of w (calls ++ elapse seconds ∷ [])
        ≡ record (run V key_prefix windows_of w calls) {
          db = V.elapse seconds (run V key_prefix windows_of w calls).db;
        }
  unfolding run step elapse_step
  run-elapse w [] seconds = refl
  run-elapse w (call ∷ calls) seconds =
      run-elapse (step V key_prefix windows_of w call) calls seconds
