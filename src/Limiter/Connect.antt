-- ===== src/Limiter/Connect.antt =====
-- src/limiter.rs: what `Limiter::new` meets, and how it fails.
use mathlib.Core.Option.{some-injective}
use postfix_ratelimitd.Base.Text.{Text, codes}
use postfix_ratelimitd.Base.{
  ◌≡◌, ◌↔◌, inl, inr, true, some, arith, subst, Bool-cases, Option-cases, Outcome-cases, Bool, not,
  List, [], ◌∷◌, map, All, refl, sym, Option, Outcome, ok, err, if◌then◌else◌,
}
use postfix_ratelimitd.Limiter.Support.{
  Info, nil, known, SupportError, required_commands, check_command_support, AllKnown,
  check_command_support_iff,
}

-- Whether `Client::open` takes the settings, whether the connection manager connects within its
-- timeouts and retries, and the server's reply to COMMAND INFO, if it comes.
pub record Reach : Type 0 where
  pub opens : Bool
  pub connects : Bool
  pub command_info : Option (List Info)

pub data LimiterError : Type 0 where
  bad_client unreachable : LimiterError
  unsupported : SupportError → LimiterError

-- The steps of `Limiter::new`, up to the value that it returns.
unfoldable pub connect_and_check : Reach → Outcome LimiterError (Unit {0})
unfolding check_command_support
connect_and_check reach =
    if not reach.opens
    then err bad_client
    else if not reach.connects
    then err unreachable
    else elim (check_command_support required_commands reach.command_info) [
      | err e ↦ err (unsupported e)
      | ok checked ↦ ok tt
    ]

-- `Limiter::new` succeeds exactly when the client takes the settings, the connection manager connects,
-- and the server answers COMMAND INFO with an entry for none of the commands that marks it as unknown.
connect_and_check_iff :
    (reach : Reach)
    → (connect_and_check reach ≡ ok tt) ↔ (
        (reach.opens ≡ true)
        × (reach.connects ≡ true)
        × ((info : List Info) × (reach.command_info ≡ some info) × AllKnown required_commands info))
unfolding connect_and_check
connect_and_check_iff reach = elim (Bool-cases reach.opens) [
  | inr a ↦ (λ h. absurd ground (arith, a, h), λ h. absurd ground (arith, a, h.0))
  | inl a ↦ elim (Bool-cases reach.connects) [
    | inr b ↦ (λ h. absurd ground (arith, a, b, h), λ h. absurd ground (arith, b, h.1))
    | inl b ↦ elim (Option-cases reach.command_info) [
      | inl c ↦ (λ h. absurd ground (arith, a, b, c, h), λ h. absurd ground (arith, c, h.2.1))
      | inr (info, c) ↦
          let supported = check_command_support_iff required_commands info in
          elim (Outcome-cases (check_command_support required_commands (some info))) [
            | inl (u, d) ↦ (
              λ h. (a, b, (info, c, supported.0 ground (arith, d))),
              λ h. ground (arith, a, b, c, d),
            )
            | inr (x, d) ↦ (
              λ h. absurd ground (arith, a, b, c, d, h),
              λ h. absurd (
                  let same : h.2.0 ≡ info = ground (arith, c, h.2.1) in
                  let fine = supported.1 (subst (AllKnown required_commands) same h.2.2) in
                  ground (arith, d, fine)),
            )
          ]
    ]
  ]
]

-- The commands that lua/check_and_record.lua calls, in its order, and those that `Script` sends.
abbrev pub called_commands : List Text
called_commands =
    codes "TIME"
    ∷ codes "HGETALL"
    ∷ codes "HINCRBY"
    ∷ codes "EXPIRE"
    ∷ codes "HDEL"
    ∷ codes "EVALSHA"
    ∷ codes "SCRIPT"
    ∷ []

-- A server's reply to COMMAND INFO: one entry for each command asked for, nil where it has none.
abbrev pub command_info_of : (Text → Bool) → List Text → List Info
command_info_of has = map (λ name. if has name then known else nil)

command_info_of-AllKnown :
    (has : Text → Bool) (names : List Text)
    → AllKnown names (command_info_of has names) ↔ All (λ name. has name ≡ true) names
command_info_of-AllKnown has [] = (λ h. tt, λ h. tt)
command_info_of-AllKnown has (name ∷ names) =
    let rest = command_info_of-AllKnown has names in
    elim (Bool-cases (has name)) [
      | inl e ↦ rw e (λ h. (refl, rest.0 h.1), λ h. (refl, rest.1 h.1))
      | inr e ↦ rw e (λ h. absurd (cc), λ h. absurd (cc))
    ]

module _ (has : Text → Bool) (opens connects : Bool) where
  -- A server that has these commands, and answers for those that `Limiter::new` asks about.
  abbrev pub server : Reach
  server = record {
    opens = opens;
    connects = connects;
    command_info = some (command_info_of has required_commands);
  }

  reordered :
      All (λ name. has name ≡ true) required_commands
      ↔ All (λ name. has name ≡ true) called_commands
  reordered = (
    λ (evalsha, (script, (hgetall, (hincrby, (hdel, (expire, (time, u))))))).
        (time, (hgetall, (hincrby, (expire, (hdel, (evalsha, (script, u))))))),
    λ (time, (hgetall, (hincrby, (expire, (hdel, (evalsha, (script, u))))))).
        (evalsha, (script, (hgetall, (hincrby, (hdel, (expire, (time, u))))))),
  )

  -- Against a server that answers COMMAND INFO with one entry for each command asked for, nil where it
  -- does not have the command, `Limiter::new` succeeds exactly when the client takes the settings, the
  -- connection manager connects, and the server has every command that the script calls or that is
  -- sent to run it: TIME, HGETALL, HINCRBY, EXPIRE, HDEL, EVALSHA and SCRIPT.
  pub connect_and_check_needs :
      (connect_and_check server ≡ ok tt)
      ↔ ((opens ≡ true) × (connects ≡ true) × All (λ name. has name ≡ true) called_commands)
  connect_and_check_needs =
      let iff = connect_and_check_iff server in
      let info = command_info_of has required_commands in
      let all = command_info_of-AllKnown has required_commands in
      (
        λ h.
            let (o, c, (i, same, fine)) = iff.0 h in
            let at : i ≡ info = some-injective i info (sym same) in
            (o, c, reordered.0 (all.0 (subst (AllKnown required_commands) at fine))),
        λ h. iff.1 (h.0, h.1, (info, refl, all.1 (reordered.1 h.2))),
      )
