-- ===== src/Daemon/System.antt =====
-- The parts of src/bin/postfix-ratelimitd.rs together: connections that read requests and load the
-- state (`handle_connection`), answers (`handle_request`), reloads (`reload_config`), and the servers.
mod Guarded
pub mod Promise
mod Preserving
pub mod Guarantee
pub mod Connection
pub mod Interleaved
use postfix_ratelimitd.Base.{
  ℕ, zero, suc, Bool, List, [], ◌∷◌, Option, none, some, if◌then◌else◌, Outcome,
}
use postfix_ratelimitd.Base.Text.{Text}
use postfix_ratelimitd.Config.Redis.{RedisApi}
use postfix_ratelimitd.Config.Rules.{RegexApi}
use postfix_ratelimitd.Config.Load.{Config, Files, Loaded, returned, panicked, load}
use postfix_ratelimitd.Valkey.{Valkey}
use postfix_ratelimitd.Limiter.Connect.{Reach}
use postfix_ratelimitd.Limiter.Check.{Delivery}
use postfix_ratelimitd.Limiter.Log.{Event}
use postfix_ratelimitd.Protocol.{Request, sasl_username, recipient_count}
use postfix_ratelimitd.Daemon.Stats.{Journal}
use postfix_ratelimitd.Daemon.Request.{Action, dunno, Answer, handle_request}
use postfix_ratelimitd.Daemon.Reload.{
  Limiter, RuntimeState, initial_state, same_redis_connection, reload_config,
}

-- The element at an index, and the list without it.
abbrev pub take_at {ℓ} : {A : Type ℓ} → ℕ → List A → Option (A × List A)
take_at i [] = none
take_at zero (x ∷ xs) = some (x, xs)
take_at (suc i) (x ∷ xs) = elim (take_at i xs) [
  | none ↦ none
  | some found ↦ some (found.0, x ∷ found.1)
]

-- The specification's record of a message that Postfix was told to let pass.
unfoldable pub passed_message : Request → Action → ℕ → List Event → List Event
passed_message request dunno now passed = elim (sasl_username request) [
  | none ↦ passed
  | some user ↦ elim (recipient_count request) [
    | none ↦ passed
    | some recipients ↦ record { user = user; at = now; recipients = recipients } ∷ passed
  ]
]
passed_message request _ now passed = passed

module _ (R : RedisApi) (X : RegexApi) (V : Valkey) where
  -- A request that a connection has read, with the state that it loaded for it.
  pub record InFlight : Type 0 where
    pub request : Request
    pub loaded : RuntimeState R X

  -- Servers are told apart by the settings that `same_redis_connection` compares.
  pub record System : Type 0 where
    pub current : RuntimeState R X
    pub in_flight : List InFlight
    pub databases : R.Info → V.Db
    pub journal : Journal
    pub passed : List Event

  -- A connection reads a request and loads the state; a request in flight is answered; a reload
  -- reads the config file; or seconds go by.
  pub data Occurrence : Type 0 where
    receive : Request → Occurrence
    answer : ℕ → Delivery → Occurrence
    hangup : Files R X → Text → Reach → Occurrence
    elapse : ℕ → Occurrence

  unfoldable pub answered : System → InFlight → Delivery → System
  unfolding handle_request passed_message
  answered s flight delivery =
      let info = flight.loaded.limiter.connection_info in
      let d = s.databases info in
      let a =
        handle_request R X V flight.request flight.loaded.config flight.loaded.limiter.key_prefix
          delivery s.journal d in
      record s {
        databases =
            λ other. if same_redis_connection R X other info then a.db else s.databases other;
        journal = a.journal;
        passed = passed_message flight.request a.action (V.time d) s.passed;
      }

  unfoldable pub reloads : System → Loaded (Config R X) → Reach → System
  reloads s panicked reach = s
  reloads s (returned loaded) reach = record s {
    current = (reload_config R X loaded reach s.current).1;
  }

  unfoldable pub occur : System → Occurrence → System
  unfolding answered reloads
  occur s (receive request) = record s {
    in_flight = record { request = request; loaded = s.current } ∷ s.in_flight;
  }
  occur s (answer index delivery) = elim (take_at index s.in_flight) [
    | none ↦ s
    | some found ↦ answered (record s { in_flight = found.1 }) found.0 delivery
  ]
  occur s (hangup files path reach) = reloads s (load R X files path) reach
  occur s (elapse seconds) = record s { databases = λ info. V.elapse seconds (s.databases info) }

  unfoldable pub occur_all : System → List Occurrence → System
  occur_all s [] = s
  occur_all s (o ∷ os) = occur_all (occur s o) os

  -- After startup: the limiter is connected with the configuration's settings.
  abbrev pub started : Config R X → Journal → System
  started config journal = record {
    current = initial_state R X config;
    in_flight = [];
    databases = λ info. V.empty;
    journal = journal;
    passed = [];
  }
