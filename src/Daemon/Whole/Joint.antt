-- ===== src/Daemon/Whole/Joint.antt =====
-- What the parts of src/bin/postfix-ratelimitd.rs keep of one another in a run of the whole daemon.
use mathlib.Core.List.{append-nil}
use postfix_ratelimitd.Base.{
  ℕ, ◌+◌, ◌-◌, ◌≡◌, ◌≢◌, ◌⊎◌, inl, inr, ◌≤◌, ◌∙◌, refl, sym, ap, subst, List, [], ◌++◌, some, arith,
  length,
}
use postfix_ratelimitd.Config.Redis.{RedisApi}
use postfix_ratelimitd.Config.Rules.{RegexApi}
use postfix_ratelimitd.Config.Load.{Config}
use postfix_ratelimitd.Valkey.{Valkey}
use postfix_ratelimitd.Limiter.Check.{Delivery}
use postfix_ratelimitd.Daemon.Stats.{Journal}
use postfix_ratelimitd.Daemon.Connections as Connections
use postfix_ratelimitd.Daemon.Connections.{
  MainTask, selecting, raised, draining, drained, timed_out, Daemon, max_connections, raise, decide,
  take_request, write_answer, lose_answer, drop_guard, idle,
}
use postfix_ratelimitd.Daemon.Connections.Cap.{connections-le-max, answering-le-served}
use postfix_ratelimitd.Daemon.System.{take_at, InFlight, answer, occur}
use postfix_ratelimitd.Daemon.System.Interleaved as Interleaved
use postfix_ratelimitd.Daemon.System.Interleaved.{Tasks, launched, swap_flag, finish_reload}
use postfix_ratelimitd.Daemon.Whole.Parts.{
  IsOfMain-answering, empty_of_length, length-take_at, IsSignal-in_flight, IsWork-in_flight,
  occur-answer,
}
use postfix_ratelimitd.Daemon.Whole.{
  Happenings, Whole, begun, Step, select, signal, work, read, reply, lose, close, pass_time, Run,
  here, then,
}

unless_drained : {P : Type 0} (m : MainTask) → (m ≡ drained → P) → (m ≢ drained) ⊎ P
unless_drained selecting h = inl (λ e. cc)
unless_drained (raised source previous) h = inl (λ e. cc)
unless_drained draining h = inl (λ e. cc)
unless_drained drained h = inr (h refl)
unless_drained timed_out h = inl (λ e. cc)

module _ (R : RedisApi) (X : RegexApi) (V : Valkey) where
  module _ (config : Config R X) (j : Journal) where
    -- Each part has a run of its own, and the requests in flight are those that connections answer.
    pub record IsJoint (os : Happenings R X V) (w : Whole R X V) : Type 0 where
      pub connections : Connections.Reachable j w.connections
      pub tasks : Interleaved.Run R X V (launched R X V config j) os w.tasks
      pub in_flight : length w.tasks.system.in_flight ≡ w.connections.answering

    quiet :
        (os : Happenings R X V) (t : Tasks R X V)
        → Interleaved.Run R X V (launched R X V config j) os t
        → Interleaved.Run R X V (launched R X V config j) (os ++ []) t
    quiet os t run =
        subst (λ l. Interleaved.Run R X V (launched R X V config j) l t) (sym (append-nil os)) run

    one_less :
        (w : Whole R X V) (i : ℕ) (delivery : Delivery)
        (found : InFlight R X V × List (InFlight R X V))
        → take_at i w.tasks.system.in_flight ≡ some found
        → length w.tasks.system.in_flight ≡ w.connections.answering
        → length (occur R X V w.tasks.system (answer i delivery)).in_flight
          ≡ w.connections.answering - 1
    one_less w i delivery found e same =
        let many = length-take_at i w.tasks.system.in_flight found e in
        let left = ap length (occur-answer R X V w.tasks.system i delivery found e) in
        omega (arith, many, same, left)

    step-IsJoint :
        (os more : Happenings R X V) (w u : Whole R X V)
        → Step R X V w more u
        → IsJoint os w
        → IsJoint (os ++ more) u
    unfolding occur take_request write_answer lose_answer drop_guard
    step-IsJoint os _ w _ (select c step m waits) h = record {
      connections = Connections.then_step w.connections c h.connections step;
      tasks = quiet os w.tasks h.tasks;
      in_flight = h.in_flight ∙ sym (IsOfMain-answering w.connections c step m);
    }
    step-IsJoint os _ w _ (signal t more step m selects) h = record {
      connections = h.connections;
      tasks = Interleaved.then os more w.tasks t h.tasks step;
      in_flight = ap length (IsSignal-in_flight R X V w.tasks t more step m) ∙ h.in_flight;
    }
    step-IsJoint os _ w _ (work t more step m runs) h = record {
      connections = h.connections;
      tasks = Interleaved.then os more w.tasks t h.tasks step;
      in_flight = ap length (IsWork-in_flight R X V w.tasks t more step m) ∙ h.in_flight;
    }
    step-IsJoint os _ w _ (read request runs free) h = record {
      connections =
          Connections.then_step w.connections (take_request w.connections) h.connections
            (Connections.take w.connections runs free);
      tasks = Interleaved.then os _ w.tasks _ h.tasks (Interleaved.other _ tt);
      in_flight = omega (arith, h.in_flight);
    }
    step-IsJoint os _ w _ (reply i delivery found runs e) h =
        let many = length-take_at i w.tasks.system.in_flight found e in
        record {
          connections =
              Connections.then_step w.connections (write_answer w.connections) h.connections
                (Connections.reply w.connections runs (omega (arith, many, h.in_flight)));
          tasks = Interleaved.then os _ w.tasks _ h.tasks (Interleaved.other _ tt);
          in_flight = one_less w i delivery found e h.in_flight;
        }
    step-IsJoint os _ w _ (lose i delivery found runs e) h =
        let many = length-take_at i w.tasks.system.in_flight found e in
        record {
          connections =
              Connections.then_step w.connections (lose_answer w.connections) h.connections
                (Connections.lose w.connections runs (omega (arith, many, h.in_flight)));
          tasks = Interleaved.then os _ w.tasks _ h.tasks (Interleaved.other _ tt);
          in_flight = one_less w i delivery found e h.in_flight;
        }
    step-IsJoint os _ w _ (close runs free) h = record {
      connections =
          Connections.then_step w.connections (drop_guard w.connections) h.connections
            (Connections.close w.connections runs free);
      tasks = quiet os w.tasks h.tasks;
      in_flight = h.in_flight;
    }
    step-IsJoint os _ w _ (pass_time seconds runs) h = record {
      connections = h.connections;
      tasks = Interleaved.then os _ w.tasks _ h.tasks (Interleaved.other _ tt);
      in_flight = h.in_flight;
    }

    pub Run-IsJoint :
        (os : Happenings R X V) (w : Whole R X V)
        → Run R X V (begun R X V config j) os w
        → IsJoint os w
    Run-IsJoint _ _ here = record {
      connections = Connections.begin;
      tasks = Interleaved.here;
      in_flight = refl;
    }
    Run-IsJoint _ _ (then os more w u run step) =
        step-IsJoint os more w u step (Run-IsJoint os w run)

    -- However the main task, the connections, their requests, the reload workers and the servers
    -- interleave, at most 512 connections of both kinds are served at a time, the counter is the number
    -- served, and one more while the main task decides; there are at most as many requests in flight,
    -- each with the configuration and limiter loaded for it, as connections served; and every request
    -- that was read has been answered, has lost its answer with its connection, or is in flight. When the
    -- daemon has ended after a shutdown request, and not at the timeout, no request is in flight any more:
    -- none was dropped by the shutdown.
    pub Run-keeps_requests :
        (os : Happenings R X V) (w : Whole R X V)
        → Run R X V (begun R X V config j) os w
        → (w.connections.served ≤ max_connections)
          × (w.connections.served ≤ w.connections.active)
          × (w.connections.active ≤ w.connections.served + 1)
          × (length w.tasks.system.in_flight ≤ w.connections.served)
          × (w.connections.taken
              ≡ w.connections.answered + w.connections.lost + length w.tasks.system.in_flight)
          × ((w.connections.main ≢ drained) ⊎ (w.tasks.system.in_flight ≡ []))
    Run-keeps_requests os w run =
        let h = Run-IsJoint os w run in
        let (capped, below, above, sums, over) = connections-le-max j w.connections h.connections in
        (
          capped,
          below,
          above,
          subst (λ n. n ≤ w.connections.served) (sym h.in_flight)
              (answering-le-served j w.connections h.connections),
          sums ∙ ap (λ n. w.connections.answered + w.connections.lost + n) (sym h.in_flight),
          unless_drained w.connections.main (λ e.
              let gone = over e in
              empty_of_length w.tasks.system.in_flight (omega (arith, gone, sums, h.in_flight))),
        )
