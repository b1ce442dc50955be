-- ===== src/Examples/Accepting.antt =====
-- The accept loop of src/bin/postfix-ratelimitd.rs: one request, and a shutdown.
use postfix_ratelimitd.Base.{◌≡◌, refl, [], ◌∷◌, none, some, ok, err, arith}
use postfix_ratelimitd.Daemon.Stats.{
  no_stats, connection_limit, connections_rejected, Journal, log_throttled,
}
use postfix_ratelimitd.Daemon.Connections.{
  Daemon, policy, control, draining, drained, Reachable, idle, begin, then_step, arrive, branch,
  take, reply, shut_down, close, finish, raise, decide, take_request, write_answer, drop_guard,
}
use postfix_ratelimitd.Daemon.Connections.Loop.{
  accepted, accept_failed, shutdown, hangup, ready_arms, pass,
}

abbrev quiet : Journal
quiet = record { stats = no_stats; lines = [] }

abbrev one : Daemon
one = decide policy 0 (raise policy (idle quiet))

one-Reachable : Reachable quiet one
unfolding raise
one-Reachable =
    then_step (raise policy (idle quiet)) one
      (then_step (idle quiet) (raise policy (idle quiet)) begin (arrive (idle quiet) policy refl))
      (branch (raise policy (idle quiet)) policy 0 refl)

-- It reads a request as the shutdown comes, and answers it before it closes.
abbrev asked : Daemon
asked = record (take_request one) { main = draining }

abbrev closed : Daemon
closed = drop_guard (write_answer asked)

abbrev over : Daemon
over = record closed { main = drained }

over-Reachable : Reachable quiet over
unfolding raise decide take_request write_answer drop_guard
over-Reachable =
    then_step closed over
      (then_step (write_answer asked) closed
        (then_step asked (write_answer asked)
          (then_step (take_request one) asked
            (then_step one (take_request one) one-Reachable (take one refl (omega arith)))
            (shut_down (take_request one) refl))
          (reply asked refl (omega arith)))
        (close (write_answer asked) refl (omega arith)))
      (finish closed refl refl)

-- Without a control listener only the policy socket's error and the SIGHUP are ready; SIGINT and
-- SIGTERM are one arm.
arms :
    (ready_arms (record {
      policy = some (err tt);
      control = none;
      ctrl_c = none;
      terminate = none;
      hangup = some (some tt);
    })
      ≡ accept_failed policy ∷ hangup ∷ [])
    × (ready_arms (record {
      policy = none;
      control = some (some (ok tt));
      ctrl_c = some (err tt);
      terminate = some none;
      hangup = none;
    })
        ≡ accepted control ∷ shutdown ∷ [])
unfolding ready_arms
arms = (refl, refl)

-- The 513th connection is turned away, and counted.
full : pass (accepted policy) (record one { active = 512; served = 512 }) ≡ record one {
  active = 512;
  served = 512;
  journal = log_throttled connections_rejected connection_limit one.journal;
}
unfolding pass decide raise
full = refl
