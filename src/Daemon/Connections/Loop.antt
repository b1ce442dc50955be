-- ===== src/Daemon/Connections/Loop.antt =====
-- src/bin/postfix-ratelimitd.rs: `accept_control`, `shutdown_requested`, and a pass of the main loop on
-- an arm of its `select!` that is ready.
use postfix_ratelimitd.Base.{◌≡◌, refl, List, [], ◌∷◌, ◌++◌, Option, none, some, Outcome, ok, err}
use postfix_ratelimitd.Daemon.Stats.{accept_errors, Journal, count}
use postfix_ratelimitd.Daemon.Connections.{
  Accepted, policy, control, Daemon, selecting, draining, raise, decide, arrive, branch, fail,
  shut_down, Reachable, then_step,
}

-- A future as a poll finds it: pending (`none`), or ready with its result.
abbrev pub Poll : Type 0 → Type 0
Poll A = Option A

-- What `accept()` gives: a connection, or an error.
abbrev pub Accepting : Type 0
Accepting = Poll (Outcome (Unit {0}) (Unit {0}))

-- Without a control listener it never resolves.
pub accept_control : Option Accepting → Accepting
accept_control (some accept) = accept
accept_control none = none

-- Ready with the first of the two, also where `ctrl_c` is ready with an error.
pub shutdown_requested :
    Poll (Outcome (Unit {0}) (Unit {0})) → Poll (Option (Unit {0})) → Poll (Unit {0})
shutdown_requested none none = none
shutdown_requested (some interrupted) terminate = some tt
shutdown_requested none (some received) = some tt

-- The futures of the loop's `select!`; `control` is `none` without a control listener.
pub record Polls : Type 0 where
  pub policy : Accepting
  pub control : Option Accepting
  pub ctrl_c : Poll (Outcome (Unit {0}) (Unit {0}))
  pub terminate : Poll (Option (Unit {0}))
  pub hangup : Poll (Option (Unit {0}))

pub data Arm : Type 0 where
  accepted accept_failed : Accepted → Arm
  shutdown hangup : Arm

pub accept_arm : Accepted → Accepting → List Arm
accept_arm source none = []
accept_arm source (some (ok stream)) = accepted source ∷ []
accept_arm source (some (err e)) = accept_failed source ∷ []

pub future_arm : {A : Type 0} → Arm → Poll A → List Arm
future_arm arm none = []
future_arm arm (some a) = arm ∷ []

-- The arms among which `select!` chooses.
unfoldable pub ready_arms : Polls → List Arm
unfolding accept_control shutdown_requested accept_arm future_arm
ready_arms p =
    accept_arm policy p.policy
    ++ accept_arm control (accept_control p.control)
    ++ future_arm shutdown (shutdown_requested p.ctrl_c p.terminate)
    ++ future_arm hangup p.hangup

-- The loop's body on one arm; a SIGHUP is the worker's business.
unfoldable pub pass : Arm → Daemon → Daemon
pass (accepted source) d = decide source d.active (raise source d)
pass (accept_failed policy) d = record d { journal = count accept_errors d.journal }
pass (accept_failed control) d = d
pass shutdown d = record d { main = draining }
pass hangup d = d

-- A pass is made of the main task's steps.
pub pass-Reachable :
    (j : Journal) (arm : Arm) (d : Daemon)
    → Reachable j d
    → d.main ≡ selecting
    → Reachable j (pass arm d)
unfolding pass raise
pass-Reachable j (accepted source) d r e =
    then_step (raise source d) (decide source d.active (raise source d))
      (then_step d (raise source d) r (arrive d source e))
      (branch (raise source d) source d.active refl)
pass-Reachable j (accept_failed policy) d r e =
    then_step d (record d { journal = count accept_errors d.journal }) r (fail d e)
pass-Reachable j (accept_failed control) d r e = r
pass-Reachable j shutdown d r e = then_step d (record d { main = draining }) r (shut_down d e)
pass-Reachable j hangup d r e = r
