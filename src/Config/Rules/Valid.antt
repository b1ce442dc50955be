-- ===== src/Config/Rules/Valid.antt =====
-- Which rules `Config::load` of src/config.rs accepts.
use postfix_ratelimitd.Base.{
  ℕ, ◌+◌, ◌≤◌, ◌≡◌, ◌↔◌, Bool, true, false, List, [], ◌∷◌, Option, none, some, ok, err, Outcome,
  arith, All, is_empty, inl, inr, or_else, Option-cases, Outcome-cases,
}
use postfix_ratelimitd.Config.Window.{Window}
use postfix_ratelimitd.Config.Plan.{CheckPlan, new}
use postfix_ratelimitd.Config.Error.{ConfigError}
use postfix_ratelimitd.Config.Rules.{
  RegexApi, RawSaslLimitRule, username, regex, default, validate_each, validate_windows, build_plan,
  Compiled, compile_regex, push_rule, compile_rule, compile_rules,
}

-- A whole number of seconds between a minute and 31 days.
abbrev pub IsValidWindow : Window → Type 0
IsValidWindow w = (w.duration.nanos ≡ 0) × (60 ≤ w.duration.secs) × (w.duration.secs ≤ 2678400)

-- Either `windows` alone, with valid windows and at least one, or `unrestricted = true` alone.
abbrev pub IsValidLimit : Option (List Window) → Option Bool → Type 0
IsValidLimit none (some true) = Unit {0}
IsValidLimit (some windows) none = (is_empty windows ≡ false) × All IsValidWindow windows
IsValidLimit _ _ = ⊥

abbrev pub IsOk : {A : Type 0} → Outcome ConfigError A → Type 0
IsOk (ok a) = Unit {0}
IsOk (err e) = ⊥

validate_each_iff :
    (i : ℕ) (windows : List Window) → IsOk (validate_each i windows) ↔ All IsValidWindow windows
unfolding validate_each
validate_each_iff i [] = (λ h. tt, λ h. tt)
validate_each_iff i (w ∷ ws) =
    let ih = validate_each_iff i ws in
    (λ h. ground (arith, ih.0), λ h. ground (arith, ih.1 h.1, h.0))

build_plan_iff :
    (i : ℕ) (windows : Option (List Window)) (unrestricted : Option Bool)
    → IsOk (build_plan i windows unrestricted) ↔ IsValidLimit windows unrestricted
unfolding build_plan validate_windows
build_plan_iff i none (some true) = (λ h. tt, λ h. tt)
build_plan_iff i (some ws) none =
    let each = validate_each_iff i ws in
    (λ h. ground (arith, each.0), λ h. ground (arith, each.1 h.1, h.0))
build_plan_iff i (some ws) (some true) = (λ h. h, λ h. h)
build_plan_iff i (some ws) (some false) = (λ h. h, λ h. h)
build_plan_iff i none (some false) = (λ h. h, λ h. h)
build_plan_iff i none none = (λ h. h, λ h. h)

-- An accepted rule's plan is that of its windows.
pub build_plan-ok :
    (i : ℕ) (windows : Option (List Window)) (unrestricted : Option Bool) (plan : CheckPlan)
    → build_plan i windows unrestricted ≡ ok plan
    → plan ≡ new (or_else windows [])
unfolding build_plan
build_plan-ok i none (some true) plan h = ground arith
build_plan-ok i (some ws) none plan h = ground arith
build_plan-ok i (some ws) (some true) plan h = cc
build_plan-ok i (some ws) (some false) plan h = cc
build_plan-ok i none (some false) plan h = cc
build_plan-ok i none none plan h = cc

module _ (X : RegexApi) where
  -- A rule the daemon accepts: its limit is valid, a username is not empty and a regex compiles.
  abbrev pub IsValidRule : RawSaslLimitRule → Type 0
  IsValidRule (username name windows unrestricted) =
      (is_empty name ≡ false) × IsValidLimit windows unrestricted
  IsValidRule (regex source windows unrestricted) =
      ((compiled : X.Regex) × (X.compile source ≡ some compiled))
      × IsValidLimit windows unrestricted
  IsValidRule (default windows unrestricted) = IsValidLimit windows unrestricted

  compile_rule_iff :
      (i : ℕ) (rule : RawSaslLimitRule) (c : Compiled X)
      → IsOk (compile_rule X i rule c) ↔ IsValidRule rule
  unfolding compile_rule compile_regex push_rule
  compile_rule_iff i (username name windows unrestricted) c =
      let plan = build_plan_iff i windows unrestricted in
      elim (Outcome-cases (build_plan i windows unrestricted)) [
        | inl (p, e) ↦ (λ h. ground (arith, plan.0, e), λ h. ground (arith, plan.1 h.1, h.0, e))
        | inr (x, e) ↦ (λ h. ground (arith, plan.0, e), λ h. ground (arith, plan.1 h.1, h.0, e))
      ]
  compile_rule_iff i (regex source windows unrestricted) c =
      let plan = build_plan_iff i windows unrestricted in
      elim (Outcome-cases (build_plan i windows unrestricted)) [
        | inl (p, e) ↦ elim (Option-cases (X.compile source)) [
          | inl f ↦
              (λ h. ground (arith, plan.0, e, f), λ h. ground (arith, plan.1 h.1, h.0.1, e, f))
          | inr (r, f) ↦
              (λ h. ((r, f), ground (arith, plan.0, e, f)), λ h. ground (arith, plan.1 h.1, e, f))
        ]
        | inr (x, e) ↦ (λ h. ground (arith, plan.0, e), λ h. ground (arith, plan.1 h.1, e))
      ]
  compile_rule_iff i (default windows unrestricted) c =
      let plan = build_plan_iff i windows unrestricted in
      elim (Outcome-cases (build_plan i windows unrestricted)) [
        | inl (p, e) ↦ (λ h. ground (arith, plan.0, e), λ h. ground (arith, plan.1 h, e))
        | inr (x, e) ↦ (λ h. ground (arith, plan.0, e), λ h. ground (arith, plan.1 h, e))
      ]

  -- The loop over the `sasl` entries succeeds exactly when every one of them is acceptable,
  -- whatever it had built before and at whatever index it started.
  pub compile_rules_iff :
      (i : ℕ) (rules : List RawSaslLimitRule) (c : Compiled X)
      → IsOk (compile_rules X i rules c) ↔ All (IsValidRule) rules
  unfolding compile_rules
  compile_rules_iff i [] c = (λ h. tt, λ h. tt)
  compile_rules_iff i (rule ∷ rest) c =
      let here = compile_rule_iff i rule c in
      elim (Outcome-cases (compile_rule X i rule c)) [
        | inl (c', e) ↦
            let there = compile_rules_iff (i + 1) rest c' in
            (λ h. ground (arith, here.1, there.0, e), λ h. ground (arith, there.1 h.1, e))
        | inr (x, e) ↦ (λ h. ground (arith, e), λ h. ground (arith, here.1 h.0, e))
      ]
