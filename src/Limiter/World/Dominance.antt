-- ===== src/Limiter/World/Dominance.antt =====
-- The log of src/limiter.rs's checks only grows, and a message accepted under a limit is in it.
use postfix_ratelimitd.Base.{
  ℕ, ◌≤◌, ◌≡◌, Bool, true, false, ◌&&◌, List, ◌∷◌, none, ok, arith, is_empty, Bool-cases, inl, inr,
}
use postfix_ratelimitd.Base.Text.{Text, text_eq}
use postfix_ratelimitd.Config.Plan.{CheckPlan}
use postfix_ratelimitd.Valkey.{Valkey}
use postfix_ratelimitd.Limiter.Log.{Event, weight}
use postfix_ratelimitd.Limiter.Script.{run_script}
use postfix_ratelimitd.Limiter.Check.{
  Delivery, answered, lost_request, lost_reply, refused, check_sasl, deliver, read_reply,
}
use postfix_ratelimitd.Limiter.World.{World, recorded, check_step}

-- Of the user's messages that pass any test, there are in `few` no more recipients than in `many`.
abbrev pub Dominated : Text → List Event → List Event → Type 0
Dominated user few many =
    (q : Event → Bool)
    → weight (λ e. text_eq e.user user && q e) few ≤ weight (λ e. text_eq e.user user && q e) many

abbrev message : Text → ℕ → ℕ → Event
message user now count = record { user = user; at = now; recipients = count }

module _ (V : Valkey) (key_prefix : Text) (w : World V) (sender : Text) (plan : CheckPlan)
    (count : ℕ) (delivery : Delivery) where
  abbrev after : World V
  after = check_step V key_prefix w sender plan count delivery

  pub check_step-Dominated :
      (user : Text) (passed : List Event)
      → Dominated user passed w.log
      → Dominated user passed after.log
  unfolding check_step
  check_step-Dominated user passed h q = ground (arith, h q)

  accepted-recorded :
      is_empty plan.bucket_sizes ≡ false
      → (check_sasl V key_prefix sender count plan none delivery w.db).0 ≡ ok true
      → recorded V key_prefix sender plan count delivery w.db ≡ true
  unfolding recorded check_sasl run_script deliver read_reply
  accepted-recorded e h = go delivery h
    where
      go :
          (x : Delivery)
          → (check_sasl V key_prefix sender count plan none x w.db).0 ≡ ok true
          → recorded V key_prefix sender plan count x w.db ≡ true
      go answered h = ground (arith, e, h)
      go lost_request h = ground (arith, e, h)
      go lost_reply h = ground (arith, e, h)
      go refused h = ground (arith, e, h)

  -- A message that its sender is told to have sent is in the log, if its sender is limited.
  pub accepted-Dominated :
      (user : Text) (passed : List Event)
      → (text_eq sender user ≡ true → is_empty plan.bucket_sizes ≡ false)
      → (check_sasl V key_prefix sender count plan none delivery w.db).0 ≡ ok true
      → Dominated user passed w.log
      → Dominated user (message sender (V.time w.db) count ∷ passed) after.log
  unfolding check_step
  accepted-Dominated user passed limited accepted h q = elim (Bool-cases (text_eq sender user)) [
    | inr apart ↦ let rest = check_step-Dominated user passed h q in ground (arith, apart, rest)
    | inl own ↦
        let noted = accepted-recorded (limited own) accepted in ground (arith, own, noted, h q)
  ]
