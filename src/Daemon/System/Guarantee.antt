-- ===== src/Daemon/System/Guarantee.antt =====
-- What Postfix can count on: the whole of src/bin/postfix-ratelimitd.rs, from startup on, with any
-- interleaving of requests, answers and reloads, lets no more than the limit pass.
use postfix_ratelimitd.Base.{ℕ, ◌+◌, ◌≤◌, ◌≡◌, ◌&&◌, List, ok, ltb, leb, arith, All}
use postfix_ratelimitd.Base.Text.{Text}
use postfix_ratelimitd.Config.Redis.{RedisApi, IsRedisApi}
use postfix_ratelimitd.Config.Rules.{RegexApi}
use postfix_ratelimitd.Config.Load.{returned, Config, Files, load}
use postfix_ratelimitd.Valkey.{Valkey, IsValkey}
use postfix_ratelimitd.Limiter.Log.{recorded_between}
use postfix_ratelimitd.Daemon.Stats.{Journal}
use postfix_ratelimitd.Daemon.System.{Occurrence, occur_all, started}
use postfix_ratelimitd.Daemon.System.Promise.{PathLimits, IsLimiting, load-Limits}
use postfix_ratelimitd.Daemon.System.Preserving.{started-IsGuarded, occur_all-IsGuarded}

module _ (R : RedisApi) (X : RegexApi) (V : Valkey) (laws : IsValkey V) (redis : IsRedisApi R)
    (home : R.Info) (key_prefix user : Text) (span limit : ℕ) where
  -- From startup on with empty databases, under any requests on any connections, answered in any
  -- order, also after a reload that came while they were in flight, with any lost requests and replies
  -- to the server, any reloads and time passing: if the file at startup and every file that is reloaded
  -- name the same database and key prefix, defer on an error of the limiter, and have in every entry
  -- that can apply to the user a window of `span` seconds with a count of at most `limit`, then in any
  -- interval of `span` seconds the messages of the user that Postfix is told to let pass have at most
  -- `limit` recipients. The server's clock is not set back.
  pub passed-le-limit :
      (files : Files R X) (path : Text) (config : Config R X) (j : Journal)
      (os : List (Occurrence R X V)) (from : ℕ)
      → load R X files path ≡ returned (ok config)
      → PathLimits R X V home key_prefix user span limit files path
      → All (IsLimiting R X V home key_prefix user span limit) os
      → recorded_between
          (occur_all R X V (started R X V config j) os).passed
          user
          from
          (from + span)
        ≤ limit
  passed-le-limit files path config j os from loaded limits limiting =
      let start = started-IsGuarded R X V laws redis home key_prefix user span limit config j (
        load-Limits R X V laws redis home key_prefix user span limit files path config loaded
          limits) in
      let h =
        occur_all-IsGuarded R X V laws redis home key_prefix user span limit
          (started R X V config j) os limiting start in
      let covers = h.accounts.covers (λ e. ltb from e.at && leb e.at (from + span)) in
      let within = h.accounts.bounded.within from in omega (arith, covers, within)
