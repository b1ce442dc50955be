-- ===== src/Daemon/System/Preserving.antt =====
-- What every occurrence in the daemon of src/bin/postfix-ratelimitd.rs preserves.
use mathlib.Core.Option.{some-injective}
use postfix_ratelimitd.Base.{
  ℕ, zero, suc, ◌≡◌, inl, inr, refl, sym, ap, subst, true, List, [], ◌∷◌, Option, some, ok, arith,
  All, Option-cases,
}
use postfix_ratelimitd.Base.Text.{Text}
use postfix_ratelimitd.Config.Redis.{RedisApi, IsRedisApi}
use postfix_ratelimitd.Config.Rules.{RegexApi}
use postfix_ratelimitd.Config.Load.{Loaded, returned, panicked, Config, load}
use postfix_ratelimitd.Valkey.{Valkey, IsValkey}
use postfix_ratelimitd.Limiter.Connect.{Reach}
use postfix_ratelimitd.Limiter.Check.{Delivery}
use postfix_ratelimitd.Daemon.Stats.{Journal}
use postfix_ratelimitd.Daemon.Reload.{RuntimeState, same_redis_connection, same_sym, same_trans}
use postfix_ratelimitd.Daemon.System.{
  take_at, InFlight, System, Occurrence, receive, answer, hangup, elapse, answered, reloads, occur,
  occur_all, started,
}
use postfix_ratelimitd.Daemon.System.Guarded.{
  Limits, IsReady, reload_config-IsReady, Accounts, answer-Accounts, elapse-Accounts,
  nothing-Accounts,
}
use postfix_ratelimitd.Daemon.System.Promise.{IsLimiting, load-Limits}

module _ {A : Type 0} (P : A → Type 0) where
  take_at-All :
      (i : ℕ) (xs : List A) (found : A × List A)
      → All P xs
      → take_at i xs ≡ some found
      → P found.0 × All P found.1
  take_at-All i [] found h e = absurd (cc)
  take_at-All zero (x ∷ xs) found h e =
      subst (λ f. P f.0 × All P f.1) (some-injective (x, xs) found e) h
  take_at-All (suc i) (x ∷ xs) found h e = elim (Option-cases (take_at i xs)) [
    | inl f ↦ absurd ground (arith, e, f)
    | inr (g, f) ↦
        let rest = take_at-All i xs g h.1 f in
        let same : ◌≡◌ {A = Option (A × List A)} (some (g.0, x ∷ g.1)) (some found) =
          ground (arith, e, f) in
        subst (λ r. P r.0 × All P r.1) (some-injective _ found same) (rest.0, (h.0, rest.1))
  ]

module _ (R : RedisApi) (X : RegexApi) (V : Valkey) (laws : IsValkey V) (redis : IsRedisApi R)
    (home : R.Info) (key_prefix user : Text) (span limit : ℕ) where
  abbrev Ready : RuntimeState R X → Type 0
  Ready = IsReady R X V laws redis home key_prefix user span limit

  -- The states that are loaded are ready, and the database at home accounts for what has passed.
  pub record IsGuarded (s : System R X V) : Type 0 where
    current : Ready s.current
    in_flight : All (λ f. Ready f.loaded) s.in_flight
    db : V.Db
    reached : (info : R.Info) → same_redis_connection R X info home ≡ true → s.databases info ≡ db
    pub accounts : Accounts R X V laws redis home key_prefix user span limit s.passed db

  answered-IsGuarded :
      (s : System R X V) (flight : InFlight R X V) (delivery : Delivery)
      → Ready flight.loaded
      → IsGuarded s
      → IsGuarded (answered R X V s flight delivery)
  unfolding answered
  answered-IsGuarded s flight delivery ready h =
      let info = flight.loaded.limiter.connection_info in
      let same = h.reached info ready.at_home in
      let given : Accounts R X V laws redis home key_prefix user span limit s.passed
          (s.databases info) =
        subst (Accounts R X V laws redis home key_prefix user span limit s.passed) (sym same)
          h.accounts in
      record {
        current = h.current;
        in_flight = h.in_flight;
        db = _;
        reached = λ other there.
            rw
              (same_trans R X redis other home info there
                (same_sym R X redis info home ready.at_home))
              refl;
        accounts =
            answer-Accounts R X V laws redis home key_prefix user span limit flight.loaded ready
              flight.request delivery s.journal (s.databases info) s.passed given;
      }

  reloads-IsGuarded :
      (s : System R X V) (loaded : Loaded (Config R X)) (reach : Reach)
      → ((config : Config R X)
          → loaded ≡ returned (ok config)
          → Limits R X V laws redis home key_prefix user span limit config)
      → IsGuarded s
      → IsGuarded (reloads R X V s loaded reach)
  unfolding reloads
  reloads-IsGuarded s panicked reach good h = h
  reloads-IsGuarded s (returned loaded) reach good h = record {
    current =
        reload_config-IsReady R X V laws redis home key_prefix user span limit loaded reach
          s.current (λ config e. good config (ap returned e)) h.current;
    in_flight = h.in_flight;
    db = h.db;
    reached = h.reached;
    accounts = h.accounts;
  }

  occur-IsGuarded :
      (s : System R X V) (o : Occurrence R X V)
      → IsLimiting R X V home key_prefix user span limit o
      → IsGuarded s
      → IsGuarded (occur R X V s o)
  unfolding occur
  occur-IsGuarded s (receive request) limits h = record {
    current = h.current;
    in_flight = (h.current, h.in_flight);
    db = h.db;
    reached = h.reached;
    accounts = h.accounts;
  }
  occur-IsGuarded s (answer index delivery) limits h =
      elim (Option-cases (take_at index s.in_flight)) [
        | inl e ↦ rw (e, occur) h
        | inr (found, e) ↦
            let (own, rest) = take_at-All _ index s.in_flight found h.in_flight e in
            rw (e, occur)
              (answered-IsGuarded (record s { in_flight = found.1 }) found.0 delivery own
                (record {
                  current = h.current;
                  in_flight = rest;
                  db = h.db;
                  reached = h.reached;
                  accounts = h.accounts;
                }))
      ]
  occur-IsGuarded s (hangup files path reach) limits h =
      reloads-IsGuarded s (load R X files path) reach
        (λ config e.
          load-Limits R X V laws redis home key_prefix user span limit files path config e limits)
        h
  occur-IsGuarded s (elapse seconds) limits h = record {
    current = h.current;
    in_flight = h.in_flight;
    db = V.elapse seconds h.db;
    reached = λ info there. ap (V.elapse seconds) (h.reached info there);
    accounts =
        elapse-Accounts R X V laws redis home key_prefix user span limit s.passed h.db seconds
          h.accounts;
  }

  pub occur_all-IsGuarded :
      (s : System R X V) (os : List (Occurrence R X V))
      → All (IsLimiting R X V home key_prefix user span limit) os
      → IsGuarded s
      → IsGuarded (occur_all R X V s os)
  unfolding occur_all
  occur_all-IsGuarded s [] limits h = h
  occur_all-IsGuarded s (o ∷ os) limits h =
      occur_all-IsGuarded (occur R X V s o) os limits.1 (occur-IsGuarded s o limits.0 h)

  pub started-IsGuarded :
      (config : Config R X) (j : Journal)
      → Limits R X V laws redis home key_prefix user span limit config
      → IsGuarded (started R X V config j)
  started-IsGuarded config j limits = record {
    current = record { prefix_is = limits.prefix_is; at_home = limits.at_home; limits = limits };
    in_flight = tt;
    db = V.empty;
    reached = λ info there. refl;
    accounts = nothing-Accounts R X V laws redis home key_prefix user span limit;
  }
