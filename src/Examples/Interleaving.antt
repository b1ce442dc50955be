-- ===== src/Examples/Interleaving.antt =====
-- A run of src/bin/postfix-ratelimitd.rs: two connections, a reload during which a request is read and
-- another is answered, and a shutdown.
use postfix_ratelimitd.Base.{◌+◌, ◌≡◌, ◌≢◌, ◌⊎◌, ◌≤◌, refl, false, [], ◌∷◌, ok, arith, length}
use postfix_ratelimitd.Valkey.Memory.{memory, memory-IsValkey}
use postfix_ratelimitd.Limiter.Log.{recorded_between}
use postfix_ratelimitd.Limiter.Check.{answered}
use postfix_ratelimitd.Daemon.Reload.Worker.{bumped}
use postfix_ratelimitd.Daemon.Connections as Connections
use postfix_ratelimitd.Daemon.Connections.{
  Daemon, policy, draining, drained, max_connections, raise, decide, take_request, write_answer,
  drop_guard,
}
use postfix_ratelimitd.Daemon.System.{
  Occurrence, receive, answer, hangup, occur, occur_all, started,
}
use postfix_ratelimitd.Daemon.System.Interleaved as Interleaved
use postfix_ratelimitd.Daemon.System.Interleaved.{
  Worker, counted, fetched, done, leaving, swap_flag, finish_reload,
}
use postfix_ratelimitd.Daemon.System.Interleaved.Simulation.{AreSolo, Run-refines}
use postfix_ratelimitd.Daemon.Main.CommandLine.{parsed}
use postfix_ratelimitd.Daemon.Main.Guarantee.{main-le-limit}
use postfix_ratelimitd.Daemon.Whole.{
  Happenings, Whole, begun, happens, select, signal, work, read, reply, close, Run, here, then,
}
use postfix_ratelimitd.Daemon.Whole.Joint.{Run-IsJoint, Run-keeps_requests}
use postfix_ratelimitd.Examples.Running.{simple_log, options, plain, deserted, state, serves}
use postfix_ratelimitd.Examples.Settings.{literal, simple_redis, files, daemon_config, loaded}
use postfix_ratelimitd.Examples.Serving.{lawful, quiet, reachable}
use postfix_ratelimitd.Examples.Promises.{prefix, bob, bobs, path, path-Limits}

abbrev Running : Type 0
Running = Whole simple_redis literal memory

abbrev first : Running
first = begun simple_redis literal memory daemon_config quiet

abbrev occurs : Occurrence simple_redis literal memory → Running → Running
occurs o w = record w { tasks = happens simple_redis literal memory o w.tasks }

-- A connection arrives and is spawned.
abbrev arriving : Running → Running
arriving w = record w { connections = raise policy w.connections }

abbrev spawned : Running → Running
spawned w = record w {
  connections = decide policy w.connections.active (raise policy w.connections);
}

abbrev one : Running
one = spawned first

abbrev two : Running
two = spawned one

abbrev asks : Running → Running
asks w = record (occurs (receive bobs) w) { connections = take_request w.connections }

abbrev asked : Running
asked = asks two

-- A SIGHUP comes, and its worker has loaded the state when bob's second request is read.
abbrev hung_up : Running
hung_up = record asked { tasks = record asked.tasks { requests = 1; main = bumped } }

abbrev reloading : Running
reloading = record hung_up { tasks = swap_flag simple_redis literal memory hung_up.tasks }

abbrev with_worker : Worker simple_redis literal memory → Running → Running
with_worker worker w = record w { tasks = record w.tasks { workers = worker ∷ [] } }

abbrev at_state : Running
at_state = with_worker (fetched 1 reloading.tasks.system.current) reloading

abbrev beside : Running
beside = asks at_state

abbrev answered_one : Running
answered_one = record (occurs (answer 1 answered) beside) {
  connections = write_answer beside.connections;
}

abbrev stored : Running
stored = record answered_one {
  tasks = record answered_one.tasks {
    system =
        finish_reload simple_redis literal memory (ok daemon_config) reachable
          reloading.tasks.system.current answered_one.tasks.system;
    workers = done 1 ∷ [];
  };
}

abbrev cleared : Running
cleared = record stored { tasks = record stored.tasks { in_progress = false; workers = [] } }

-- SIGTERM comes before the last answer.
abbrev stopping : Running
stopping = record cleared { connections = record cleared.connections { main = draining } }

abbrev answered_both : Running
answered_both = record (occurs (answer 0 answered) stopping) {
  connections = write_answer stopping.connections;
}

abbrev closing : Running → Running
closing w = record w { connections = drop_guard w.connections }

abbrev over : Running
over = record (closing (closing answered_both)) {
  connections = record (closing (closing answered_both)).connections { main = drained };
}

abbrev Runs : Happenings simple_redis literal memory → Running → Type 0
Runs = Run simple_redis literal memory first

accepts_two : Runs [] two
unfolding raise decide
accepts_two =
    then _ _ (arriving one) two
      (then _ _ one (arriving one)
        (then _ _ (arriving first) one
          (then _ _ first (arriving first) here
            (select _ (Connections.arrive first.connections policy refl) tt refl))
          (select _ (Connections.branch (arriving first).connections policy 0 refl) tt refl))
        (select _ (Connections.arrive one.connections policy refl) tt refl))
      (select _ (Connections.branch (arriving one).connections policy 1 refl) tt refl)

starts_reload : Runs (receive bobs ∷ []) at_state
unfolding raise decide take_request swap_flag
starts_reload =
    then _ _ (with_worker (counted 1) reloading) at_state
      (then _ _ reloading (with_worker (counted 1) reloading)
        (then _ _ hung_up reloading
          (then _ _ asked hung_up (then _ _ two asked accepts_two (read bobs refl (omega arith)))
            (signal _ _ (Interleaved.sighup refl (omega arith)) tt refl))
          (signal _ _ (Interleaved.claim refl) tt refl))
        (work _ _ (Interleaved.begin 0 [] refl) tt refl))
      (work _ _ (Interleaved.fetch 0 1 [] refl) tt refl)

abbrev happened : Happenings simple_redis literal memory
happened =
    receive bobs
    ∷ receive bobs
    ∷ answer 1 answered
    ∷ hangup files path reachable
    ∷ answer 0 answered
    ∷ []

reloads :
    Runs
      (receive bobs ∷ receive bobs ∷ answer 1 answered ∷ hangup files path reachable ∷ [])
      cleared
unfolding raise decide take_request write_answer swap_flag occur
reloads =
    then _ _ (with_worker leaving stored) cleared
      (then _ _ stored (with_worker leaving stored)
        (then _ _ answered_one stored
          (then _ _ beside answered_one
            (then _ _ at_state beside starts_reload (read bobs refl (omega arith)))
            (reply 1 answered _ refl refl))
          (work _ _
            (Interleaved.finish 0 1 [] reloading.tasks.system.current files path reachable
              (ok daemon_config) refl loaded)
            tt refl))
        (work _ _ (Interleaved.look 0 1 [] refl) tt refl))
      (work _ _ (Interleaved.release 0 [] refl) tt refl)

runs : Runs happened over
unfolding raise decide take_request write_answer drop_guard swap_flag occur finish_reload
runs =
    then _ _ (closing (closing answered_both)) over
      (then _ _ (closing answered_both) (closing (closing answered_both))
        (then _ _ answered_both (closing answered_both)
          (then _ _ stopping answered_both
            (then _ _ cleared stopping reloads
              (select _ (Connections.shut_down cleared.connections refl) tt refl))
            (reply 0 answered _ refl refl))
          (close refl (omega arith)))
        (close refl (omega arith)))
      (select _ (Connections.finish (closing (closing answered_both)).connections refl refl) tt
        refl)

Run-keeps_requests_example :
    (over.connections.served ≤ max_connections)
    × (over.connections.served ≤ over.connections.active)
    × (over.connections.active ≤ over.connections.served + 1)
    × (length over.tasks.system.in_flight ≤ over.connections.served)
    × (over.connections.taken
        ≡ over.connections.answered + over.connections.lost + length over.tasks.system.in_flight)
    × ((over.connections.main ≢ drained) ⊎ (over.tasks.system.in_flight ≡ []))
Run-keeps_requests_example =
    Run-keeps_requests simple_redis literal memory daemon_config quiet happened over runs

Run-refines_example :
    AreSolo simple_redis literal memory over.tasks
    × (over.tasks.system
        ≡ occur_all simple_redis literal memory
            (started simple_redis literal memory daemon_config quiet)
            happened)
Run-refines_example =
    Run-refines simple_redis literal memory daemon_config quiet over.tasks happened
      (Run-IsJoint simple_redis literal memory daemon_config quiet happened over runs).tasks

main-le-limit_example : recorded_between over.tasks.system.passed bob 0 (0 + 3600) ≤ 10
unfolding parsed
main-le-limit_example =
    main-le-limit simple_log simple_redis literal memory memory-IsValkey lawful
      daemon_config.redis_connection_info prefix bob 3600 10 plain deserted options state quiet over
      happened 0 refl serves path-Limits (tt, (tt, (tt, (path-Limits, (tt, tt))))) runs
