-- ===== src/Config/Rules/Choice.antt =====
-- Which plan `Config::plan_for` of src/config.rs chooses, in terms of the config file's entries.
use postfix_ratelimitd.Base.{
  ℕ, ◌+◌, ◌≡◌, ◌≢◌, refl, Bool, false, List, [], ◌∷◌, ◌++◌, Option, none, some, ok, arith, inl, inr,
  or_else, Outcome-cases, Option-cases, Bool-cases, if◌then◌else◌, is_empty,
}
use postfix_ratelimitd.Base.Text.{Text, text_eq}
use postfix_ratelimitd.Config.Window.{Window}
use postfix_ratelimitd.Config.Plan.{CheckPlan, new}
use postfix_ratelimitd.Config.Rules.{
  RegexApi, RawSaslLimitRule, username, regex, default, build_plan, is_default, count_default,
  SaslMatcher, SaslLimitRule, matcher_matches, matches, Compiled, compile_regex, push_rule,
  compile_rule, compile_rules, first_match,
}
use postfix_ratelimitd.Config.Rules.Valid.{build_plan-ok}

module _ (X : RegexApi) where
  -- Whether an entry of the config file names this user.
  abbrev pub names_user : RawSaslLimitRule → Text → Bool
  names_user (username name _ _) user = text_eq name user
  names_user (regex source _ _) user = elim (X.compile source) [
    | none ↦ false
    | some compiled ↦ X.is_match compiled user
  ]
  names_user (default _ _) user = false

  abbrev pub windows_of : RawSaslLimitRule → List Window
  windows_of (username _ windows _) = or_else windows []
  windows_of (regex _ windows _) = or_else windows []
  windows_of (default windows _) = or_else windows []

  -- The windows of the first entry that names the user, else the fallback.
  abbrev pub choose : List RawSaslLimitRule → List Window → Text → List Window
  choose [] fallback user = fallback
  choose (rule ∷ rest) fallback user =
      if names_user rule user then windows_of rule else choose rest fallback user

  -- The windows of the last `default` entry, or what came before.
  abbrev pub default_windows : List RawSaslLimitRule → Option CheckPlan → Option CheckPlan
  default_windows [] before = before
  default_windows (rule ∷ rest) before =
      default_windows rest (if is_default rule then some (new (windows_of rule)) else before)

  first_match-append :
      (xs : List (SaslLimitRule X)) (r : SaslLimitRule X) (p : CheckPlan) (user : Text)
      → first_match X (xs ++ r ∷ []) p user
        ≡ first_match X xs (if matches X r user then r.plan else p) user
  unfolding first_match
  first_match-append [] r p user = refl
  first_match-append (x ∷ xs) r p user =
      let ih = first_match-append xs r p user in
      elim (Bool-cases (matches X x user)) [
        | inl e ↦ ground (arith, ih, e)
        | inr e ↦ ground (arith, ih, e)
      ]

  -- What one accepted entry adds.
  record Adds (rule : RawSaslLimitRule) (c : Compiled X) (c' : Compiled X) : Type 0 where
    choice :
        (p : CheckPlan) (user : Text)
        → first_match X c'.sasl_limits p user
          ≡ first_match X c.sasl_limits
              (if names_user rule user then new (windows_of rule) else p)
              user
    default_is :
        c'.default_plan ≡ (if is_default rule then some (new (windows_of rule)) else c.default_plan)

  compile_rule-Adds :
      (i : ℕ) (rule : RawSaslLimitRule) (c c' : Compiled X)
      → compile_rule X i rule c ≡ ok c'
      → Adds rule c c'
  unfolding compile_rule compile_regex push_rule is_default matches matcher_matches
  compile_rule-Adds i (username name windows unrestricted) c c' h =
      elim (Bool-cases (is_empty name)) [
        | inl e ↦ ground (arith, e)
        | inr e ↦ elim (Outcome-cases (build_plan i windows unrestricted)) [
          | inr (x, f) ↦ ground (arith, e, f)
          | inl (plan, f) ↦
              let is_plan = build_plan-ok i windows unrestricted plan f in
              let append = λ (p : CheckPlan) (user : Text).
                first_match-append c.sasl_limits
                  (record { matcher = SaslMatcher.username name; plan = plan }) p user in
              record {
                choice = λ p user. ground (arith, append p user, is_plan, e, f);
                default_is = ground (arith, e, f);
              }
        ]
      ]
  compile_rule-Adds i (regex source windows unrestricted) c c' h =
      elim (Outcome-cases (build_plan i windows unrestricted)) [
        | inr (x, f) ↦ ground (arith, f)
        | inl (plan, f) ↦ elim (Option-cases (X.compile source)) [
          | inl e ↦ ground (arith, e, f)
          | inr (r, e) ↦
              let is_plan = build_plan-ok i windows unrestricted plan f in
              let append = λ (p : CheckPlan) (user : Text).
                first_match-append c.sasl_limits
                  (record { matcher = SaslMatcher.regex r; plan = plan }) p user in
              record {
                choice = λ p user. ground (arith, append p user, is_plan, e, f);
                default_is = ground (arith, e, f);
              }
        ]
      ]
  compile_rule-Adds i (default windows unrestricted) c c' h =
      elim (Outcome-cases (build_plan i windows unrestricted)) [
        | inr (x, f) ↦ ground (arith, f)
        | inl (plan, f) ↦
            let is_plan = build_plan-ok i windows unrestricted plan f in
            record { choice = λ p user. ground (arith, f); default_is = ground (arith, is_plan, f) }
      ]

  -- An accepted list of entries, from what the loop had built before it.
  pub compile_rules-choose :
      (i : ℕ) (rules : List RawSaslLimitRule) (c c' : Compiled X)
      → compile_rules X i rules c ≡ ok c'
      → (fallback : List Window) (user : Text)
      → (first_match X c'.sasl_limits (new fallback) user
          ≡ first_match X c.sasl_limits (new (choose rules fallback user)) user)
        × (c'.default_plan ≡ default_windows rules c.default_plan)
  unfolding compile_rules
  compile_rules-choose i [] c c' h fallback user = ground (arith, h)
  compile_rules-choose i (rule ∷ rest) c c' h fallback user =
      elim (Outcome-cases (compile_rule X i rule c)) [
        | inr (x, e) ↦ ground (arith, e)
        | inl (d, e) ↦
            let here = compile_rule-Adds i rule c d e in
            let there = compile_rules-choose (i + 1) rest d c' (ground (arith, e)) fallback user in
            let choice = here.choice (new (choose rest fallback user)) user in
            let def = here.default_is in ground (arith, choice, def, there.0, there.1)
      ]

  default_windows-some :
      (rules : List RawSaslLimitRule) (w : List Window)
      → (windows : List Window) × (default_windows rules (some (new w)) ≡ some (new windows))
  default_windows-some [] w = (w, refl)
  default_windows-some (rule ∷ rest) w = elim (Bool-cases (is_default rule)) [
    | inl e ↦
        let there = default_windows-some rest (windows_of rule) in
        (there.0, ground (arith, there.1, e))
    | inr e ↦ let there = default_windows-some rest w in (there.0, ground (arith, there.1, e))
  ]

  -- Among entries with a `default`, the plan left is that of some list of windows.
  pub default_windows-counted :
      (rules : List RawSaslLimitRule)
      → count_default rules ≢ 0
      → (windows : List Window) × (default_windows rules none ≡ some (new windows))
  unfolding count_default
  default_windows-counted [] h = absurd (h refl)
  default_windows-counted (rule ∷ rest) h = elim (Bool-cases (is_default rule)) [
    | inl e ↦
        let there = default_windows-some rest (windows_of rule) in
        (there.0, ground (arith, there.1, e))
    | inr e ↦
        let there = default_windows-counted rest (λ z. h (ground (arith, e, z))) in
        (there.0, ground (arith, there.1, e))
  ]
