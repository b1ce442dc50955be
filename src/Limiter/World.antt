-- ===== src/Limiter/World.antt =====
-- The senders of a mail server over time: each check is one `check_sasl` of src/limiter.rs against
-- the database that the last one left, and time passes between them. The log is the specification's:
-- which messages were recorded, and when.
mod Invariant
mod Steps
mod Kept
pub mod Bound
pub mod Dominance
pub mod History
mod Totals
pub mod Verdict
pub mod Recovery
pub mod Sliding
use postfix_ratelimitd.Base.{
  ℕ, Bool, true, false, List, [], ◌∷◌, Option, none, some, ◌==◌, if◌then◌else◌, is_empty,
}
use postfix_ratelimitd.Base.Text.{Text}
use postfix_ratelimitd.Config.Window.{Window}
use postfix_ratelimitd.Config.Plan.{CheckPlan, new}
use postfix_ratelimitd.Valkey.{Valkey}
use postfix_ratelimitd.Limiter.Log.{Event}
use postfix_ratelimitd.Limiter.Script.{run_script}
use postfix_ratelimitd.Limiter.Check.{
  Delivery, answered, lost_request, refused, bucket_keys, check_sasl,
}

pub data Call : Type 0 where
  check : Text → ℕ → Delivery → Call
  elapse : ℕ → Call

-- The script answered 1, so it has recorded the message.
abbrev pub is_recorded : Option ℕ → Bool
is_recorded none = false
is_recorded (some n) = n == 1

module _ (V : Valkey) where
  pub record World : Type 0 where
    pub db : V.Db
    pub log : List Event

  abbrev pub start : World
  start = record { db = V.empty; log = [] }

module _ (V : Valkey) (key_prefix : Text) where
  abbrev pub script_reply : Text → CheckPlan → ℕ → V.Db → Option ℕ × V.Db
  script_reply user plan count d =
      run_script V (bucket_keys key_prefix user plan.bucket_sizes)
        (record { recipient_count = count; now_override = none; plan = plan }) d

  -- Whether the check of a message records it.
  unfoldable pub recorded : Text → CheckPlan → ℕ → Delivery → V.Db → Bool
  recorded user plan count lost_request d = false
  recorded user plan count refused d = false
  recorded user plan count _ d =
      if is_empty plan.bucket_sizes then false else is_recorded (script_reply user plan count d).0

  -- One message of a sender, against the plan in force.
  unfoldable pub check_step : World V → Text → CheckPlan → ℕ → Delivery → World V
  check_step w user plan count delivery = record {
    db = (check_sasl V key_prefix user count plan none delivery w.db).1;
    log =
        if recorded user plan count delivery w.db
        then record { user = user; at = V.time w.db; recipients = count } ∷ w.log
        else w.log;
  }

  unfoldable pub elapse_step : World V → ℕ → World V
  elapse_step w seconds = record w { db = V.elapse seconds w.db }

-- Each sender has a list of windows; none means unrestricted. The configuration does not change.
module _ (V : Valkey) (key_prefix : Text) (windows_of : Text → List Window) where
  abbrev pub plan_of : Text → CheckPlan
  plan_of user = new (windows_of user)

  unfoldable pub step : World V → Call → World V
  unfolding check_step elapse_step
  step w (check user count delivery) = check_step V key_prefix w user (plan_of user) count delivery
  step w (elapse seconds) = elapse_step V key_prefix w seconds

  unfoldable pub run : World V → List Call → World V
  run w [] = w
  run w (call ∷ calls) = run (step w call) calls
