-- ===== src/Daemon/Whole.antt =====
-- src/bin/postfix-ratelimitd.rs from the start of the loop to the end of `main`: the main task, the
-- connections that it has spawned, their requests, the reload workers, and the servers, in one step
-- relation. Each part keeps the counters of `STATS` that it raises.
mod Parts
pub mod Joint
use postfix_ratelimitd.Base.{ℕ, ◌≡◌, ◌<◌, true, List, [], ◌∷◌, ◌++◌, some}
use postfix_ratelimitd.Config.Redis.{RedisApi}
use postfix_ratelimitd.Config.Rules.{RegexApi}
use postfix_ratelimitd.Config.Load.{Config}
use postfix_ratelimitd.Valkey.{Valkey}
use postfix_ratelimitd.Limiter.Check.{Delivery}
use postfix_ratelimitd.Protocol.{Request}
use postfix_ratelimitd.Daemon.Stats.{Journal}
use postfix_ratelimitd.Daemon.Reload.Worker.{waiting}
use postfix_ratelimitd.Daemon.Connections as Connections
use postfix_ratelimitd.Daemon.Connections.{
  Daemon, selecting, is_running, take_request, write_answer, lose_answer, drop_guard, idle,
}
use postfix_ratelimitd.Daemon.System.{take_at, InFlight, Occurrence, receive, answer, elapse, occur}
use postfix_ratelimitd.Daemon.System.Interleaved as Interleaved
use postfix_ratelimitd.Daemon.System.Interleaved.{Tasks, launched}

-- The steps of the main task by itself
abbrev pub IsOfMain : {d e : Daemon} → Connections.Step d e → Type 0
IsOfMain (Connections.arrive d source h) = Unit {0}
IsOfMain (Connections.branch d source previous h) = Unit {0}
IsOfMain (Connections.fail d h) = Unit {0}
IsOfMain (Connections.shut_down d h) = Unit {0}
IsOfMain (Connections.finish d h none_left) = Unit {0}
IsOfMain (Connections.give_up d h) = Unit {0}
IsOfMain _ = ⊥

module _ (R : RedisApi) (X : RegexApi) (V : Valkey) where
  abbrev pub Happenings : Type 0
  Happenings = List (Occurrence R X V)

  -- The main task's two steps on a SIGHUP
  abbrev pub IsSignal :
      {t u : Tasks R X V} {os : Happenings} → Interleaved.Step R X V t os u → Type 0
  IsSignal (Interleaved.sighup h lt) = Unit {0}
  IsSignal (Interleaved.claim h) = Unit {0}
  IsSignal _ = ⊥

  -- A reload worker's steps
  abbrev pub IsWork : {t u : Tasks R X V} {os : Happenings} → Interleaved.Step R X V t os u → Type 0
  IsWork (Interleaved.other o h) = ⊥
  IsWork (Interleaved.sighup h lt) = ⊥
  IsWork (Interleaved.claim h) = ⊥
  IsWork _ = Unit {0}

  pub record Whole : Type 0 where
    pub connections : Daemon
    pub tasks : Tasks R X V

  -- The first state of the loop
  abbrev pub begun : Config R X → Journal → Whole
  begun config journal = record {
    connections = idle journal;
    tasks = launched R X V config journal;
  }

  abbrev pub happens : Occurrence R X V → Tasks R X V → Tasks R X V
  happens o t = record t { system = occur R X V t.system o }

  -- One atomic step, with what happens to requests and servers in it.
  pub data Step (w : Whole) : Happenings → Whole → Type 0 where
    select :
        (c : Daemon) (step : Connections.Step w.connections c)
        → IsOfMain step
        → w.tasks.main ≡ waiting
        → Step w [] (record w { connections = c })
    signal :
        (t : Tasks R X V) (os : Happenings) (step : Interleaved.Step R X V w.tasks os t)
        → IsSignal step
        → w.connections.main ≡ selecting
        → Step w os (record w { tasks = t })
    work :
        (t : Tasks R X V) (os : Happenings) (step : Interleaved.Step R X V w.tasks os t)
        → IsWork step
        → is_running w.connections.main ≡ true
        → Step w os (record w { tasks = t })
    read :
        (request : Request)
        → is_running w.connections.main ≡ true
        → w.connections.answering < w.connections.served
        → Step w (receive request ∷ []) (record w {
          connections = take_request w.connections;
          tasks = happens (receive request) w.tasks;
        })
    reply :
        (i : ℕ) (delivery : Delivery) (found : InFlight R X V × List (InFlight R X V))
        → is_running w.connections.main ≡ true
        → take_at i w.tasks.system.in_flight ≡ some found
        → Step w (answer i delivery ∷ []) (record w {
          connections = write_answer w.connections;
          tasks = happens (answer i delivery) w.tasks;
        })
    -- The answer cannot be written.
    lose :
        (i : ℕ) (delivery : Delivery) (found : InFlight R X V × List (InFlight R X V))
        → is_running w.connections.main ≡ true
        → take_at i w.tasks.system.in_flight ≡ some found
        → Step w (answer i delivery ∷ []) (record w {
          connections = lose_answer w.connections;
          tasks = happens (answer i delivery) w.tasks;
        })
    -- A connection that waits for a request ends.
    close :
        is_running w.connections.main ≡ true
        → w.connections.answering < w.connections.served
        → Step w [] (record w { connections = drop_guard w.connections })
    pass_time :
        (seconds : ℕ)
        → is_running w.connections.main ≡ true
        → Step w (elapse seconds ∷ []) (record w { tasks = happens (elapse seconds) w.tasks })

  -- The runs from a first state, with what has happened in them, in order.
  pub data Run (first : Whole) : Happenings → Whole → Type 0 where
    here : Run first [] first
    then :
        (os more : Happenings) (w u : Whole)
        → Run first os w
        → Step w more u
        → Run first (os ++ more) u
