-- ===== src/Daemon/System/Interleaved.antt =====
-- src/bin/postfix-ratelimitd.rs with the reload worker's steps apart: `reload_config` loads the state,
-- and stores the new one later, while connections and further SIGHUPs go on beside it.
pub mod Simulation
pub mod Guarantee
pub mod Requests
use postfix_ratelimitd.Base.{
  ℕ, ◌+◌, ◌≡◌, ◌<◌, Bool, true, false, List, [], ◌∷◌, ◌++◌, some, Outcome, ok, ◌==◌, if◌then◌else◌,
}
use postfix_ratelimitd.Base.Text.{Text}
use postfix_ratelimitd.Config.Error.{ConfigError}
use postfix_ratelimitd.Config.Redis.{RedisApi}
use postfix_ratelimitd.Config.Rules.{RegexApi}
use postfix_ratelimitd.Config.Load.{Config, Files, returned, load}
use postfix_ratelimitd.Valkey.{Valkey}
use postfix_ratelimitd.Limiter.Connect.{Reach}
use postfix_ratelimitd.Daemon.Stats.{Journal}
use postfix_ratelimitd.Daemon.Reload.{RuntimeState, reload_config}
use postfix_ratelimitd.Daemon.Reload.Store.{store}
use postfix_ratelimitd.Daemon.Reload.Worker.{MainTask, waiting, bumped}
use postfix_ratelimitd.Daemon.System.{
  take_at, System, Occurrence, receive, answer, hangup, elapse, occur, started,
}

module _ (R : RedisApi) (X : RegexApi) (V : Valkey) where
  -- A reload worker: before its load of the counter, before `state.load_full`, before the end of
  -- `reload_config`, before its second look at the counter, and before it clears the flag.
  pub data Worker : Type 0 where
    starting : Worker
    counted : ℕ → Worker
    fetched : ℕ → RuntimeState R X → Worker
    done : ℕ → Worker
    leaving : Worker

  -- The daemon with `reload_requests`, `reload_in_progress`, and the workers that run.
  pub record Tasks : Type 0 where
    pub system : System R X V
    pub requests : ℕ
    pub in_progress : Bool
    pub main : MainTask
    pub workers : List Worker

  -- The first state of the loop
  abbrev pub launched : Config R X → Journal → Tasks
  launched config journal = record {
    system = started R X V config journal;
    requests = 0;
    in_progress = false;
    main = waiting;
    workers = [];
  }

  -- `reload_in_progress.swap(true)`, and the spawn if it was not set
  unfoldable pub swap_flag : Tasks → Tasks
  swap_flag t =
      if t.in_progress
      then record t { main = waiting }
      else record t { main = waiting; in_progress = true; workers = starting ∷ t.workers }

  -- The end of `reload_config`, on the state that it has loaded.
  unfoldable pub finish_reload :
      Outcome ConfigError (Config R X) → Reach → RuntimeState R X → System R X V → System R X V
  unfolding store reload_config
  finish_reload loaded reach fetched_state s = record s {
    current = store R X (reload_config R X loaded reach fetched_state) s.current;
  }

  -- The second look at the counter
  abbrev pub look_again : ℕ → ℕ → Worker
  look_again generation requests = if requests == generation then leaving else starting

  -- What is no reload
  abbrev pub IsOther : Occurrence R X V → Type 0
  IsOther (hangup files path reach) = ⊥
  IsOther _ = Unit {0}

  -- One atomic step of a task, with what happens to the system in it. A worker is any of those that run.
  pub data Step (t : Tasks) : List (Occurrence R X V) → Tasks → Type 0 where
    other :
        (o : Occurrence R X V)
        → IsOther o
        → Step t (o ∷ []) (record t { system = occur R X V t.system o })
    sighup :
        t.main ≡ waiting
        → t.requests < 18446744073709551615
        → Step t [] (record t { requests = t.requests + 1; main = bumped })
    claim : t.main ≡ bumped → Step t [] (swap_flag t)
    begin :
        (i : ℕ) (rest : List Worker)
        → take_at i t.workers ≡ some (starting, rest)
        → Step t [] (record t { workers = counted t.requests ∷ rest })
    fetch :
        (i generation : ℕ) (rest : List Worker)
        → take_at i t.workers ≡ some (counted generation, rest)
        → Step t [] (record t { workers = fetched generation t.system.current ∷ rest })
    finish :
        (i generation : ℕ) (rest : List Worker) (seen : RuntimeState R X) (files : Files R X)
        (path : Text) (reach : Reach) (loaded : Outcome ConfigError (Config R X))
        → take_at i t.workers ≡ some (fetched generation seen, rest)
        → load R X files path ≡ returned loaded
        → Step t (hangup files path reach ∷ []) (record t {
          system = finish_reload loaded reach seen t.system;
          workers = done generation ∷ rest;
        })
    look :
        (i generation : ℕ) (rest : List Worker)
        → take_at i t.workers ≡ some (done generation, rest)
        → Step t [] (record t { workers = look_again generation t.requests ∷ rest })
    release :
        (i : ℕ) (rest : List Worker)
        → take_at i t.workers ≡ some (leaving, rest)
        → Step t [] (record t { in_progress = false; workers = rest })

  -- The runs from a first state, with what has happened to the system in them, in order.
  pub data Run (first : Tasks) : List (Occurrence R X V) → Tasks → Type 0 where
    here : Run first [] first
    then :
        (os more : List (Occurrence R X V)) (t u : Tasks)
        → Run first os t
        → Step t more u
        → Run first (os ++ more) u
