-- ===== src/Limiter/Support.antt =====
-- src/limiter.rs: `check_command_support`, which `Limiter::new` asks before a server is used.
use postfix_ratelimitd.Base.{◌≡◌, ◌↔◌, refl, List, [], ◌∷◌, Option, none, some, Outcome, ok, err}
use postfix_ratelimitd.Base.Text.{Text, codes}

abbrev pub required_commands : List Text
required_commands =
    codes "EVALSHA"
    ∷ codes "SCRIPT"
    ∷ codes "HGETALL"
    ∷ codes "HINCRBY"
    ∷ codes "HDEL"
    ∷ codes "EXPIRE"
    ∷ codes "TIME"
    ∷ []

-- The entry of `COMMAND INFO` for one command; `nil` for one that the server does not know.
pub data Info : Type 0 where
  nil known : Info

pub data SupportError : Type 0 where
  not_answered : SupportError
  missing_commands : List Text → SupportError

-- `commands.iter().zip(&info).filter(Nil).map(name)`
unfoldable pub missing : List Text → List Info → List Text
missing [] info = []
missing (name ∷ names) [] = []
missing (name ∷ names) (nil ∷ info) = name ∷ missing names info
missing (name ∷ names) (known ∷ info) = missing names info

judge : List Text → Outcome SupportError (Unit {0})
judge [] = ok tt
judge (name ∷ names) = err (missing_commands (name ∷ names))

unfoldable pub check_command_support :
    List Text → Option (List Info) → Outcome SupportError (Unit {0})
unfolding judge
check_command_support commands none = err not_answered
check_command_support commands (some info) = judge (missing commands info)

-- Every command that the reply has an entry for is known.
abbrev pub AllKnown : List Text → List Info → Type 0
AllKnown [] info = Unit {0}
AllKnown (name ∷ names) [] = Unit {0}
AllKnown (name ∷ names) (i ∷ info) = (i ≡ known) × AllKnown names info

judge-missing :
    (names : List Text) (info : List Info)
    → (judge (missing names info) ≡ ok tt) ↔ AllKnown names info
unfolding judge missing
judge-missing [] info = (λ h. tt, λ h. refl)
judge-missing (name ∷ names) [] = (λ h. tt, λ h. refl)
judge-missing (name ∷ names) (nil ∷ info) = (λ h. absurd (cc), λ h. absurd (cc))
judge-missing (name ∷ names) (known ∷ info) =
    let rest = judge-missing names info in (λ h. (refl, rest.0 h), λ h. rest.1 h.1)

-- An answered check succeeds exactly when the reply marks none of the commands it covers as unknown.
pub check_command_support_iff :
    (commands : List Text) (info : List Info)
    → (check_command_support commands (some info) ≡ ok tt) ↔ AllKnown commands info
unfolding check_command_support
check_command_support_iff commands info = judge-missing commands info
