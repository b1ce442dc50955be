-- ===== src/Daemon/Main/Guarantee.antt =====
-- What Postfix can count on: the whole of src/bin/postfix-ratelimitd.rs, from the first line of `main`.
use postfix_ratelimitd.Base.{ℕ, ◌+◌, ◌≤◌, ◌≡◌, ◌∙◌, List, Outcome, ok, sym, subst, All, arith}
use postfix_ratelimitd.Base.Text.{Text}
use postfix_ratelimitd.Config.Redis.{RedisApi, IsRedisApi}
use postfix_ratelimitd.Config.Rules.{RegexApi}
use postfix_ratelimitd.Config.Load.{load, returned}
use postfix_ratelimitd.Valkey.{Valkey, IsValkey}
use postfix_ratelimitd.Limiter.Log.{recorded_between}
use postfix_ratelimitd.Daemon.Stats.{Journal}
use postfix_ratelimitd.Daemon.Reload.{RuntimeState}
use postfix_ratelimitd.Daemon.Startup.{Host}
use postfix_ratelimitd.Daemon.System.{Occurrence}
use postfix_ratelimitd.Daemon.System.Promise.{PathLimits, IsLimiting}
use postfix_ratelimitd.Daemon.System.Interleaved.Guarantee.{Run-le-limit}
use postfix_ratelimitd.Daemon.Whole.{Whole, begun, Run}
use postfix_ratelimitd.Daemon.Whole.Joint.{Run-IsJoint}
use postfix_ratelimitd.Daemon.Main.CommandLine.{LogApi, Arguments, parsed}
use postfix_ratelimitd.Daemon.Main.{Surroundings, serving, main}
use postfix_ratelimitd.Daemon.Main.Ready.{main-IsServable}

module _ (G : LogApi) (R : RedisApi) (X : RegexApi) (V : Valkey) (laws : IsValkey V)
    (redis : IsRedisApi R) (home : R.Info) (key_prefix user : Text) (span limit : ℕ) where
  -- `main` has got to its loop, and runs from there with empty databases to any moment before it ends:
  -- under any connections that are accepted and closed, any requests on them, answered in any order, also
  -- after a reload that came while they were in flight, with any lost requests and replies to the server,
  -- any SIGHUPs, with reloads that take any number of other steps between loading the present state and
  -- storing the new one, a shutdown, and time passing. If the file that the command line names and every
  -- file that is reloaded name the same database and key prefix, defer on an error of the limiter, and have
  -- in every entry that can apply to the user a window of `span` seconds with a count of at most `limit`,
  -- then in any interval of `span` seconds the messages of the user that are answered with a pass have at
  -- most `limit` recipients. The server's clock is not set back.
  pub main-le-limit :
      (w : Surroundings G R X) (host : Host) (a : Arguments G) (state : RuntimeState R X)
      (j : Journal) (daemon : Whole R X V) (os : List (Occurrence R X V)) (from : ℕ)
      → w.arguments ≡ ok a
      → (main G R X w host).0 ≡ serving state
      → PathLimits R X V home key_prefix user span limit w.files (parsed G a).config
      → All (IsLimiting R X V home key_prefix user span limit) os
      → Run R X V (begun R X V state.config j) os daemon
      → recorded_between daemon.tasks.system.passed user from (from + span) ≤ limit
  main-le-limit w host a state j daemon os from given serves limits limiting run =
      let (b, found, servable) = main-IsServable G R X w host state serves in
      let same : b ≡ a = ok_injective b a (sym found ∙ given) in
      let loaded =
        subst (λ c. load R X w.files (parsed G c).config ≡ returned (ok state.config)) same
          servable.loaded in
      Run-le-limit R X V laws redis home key_prefix user span limit w.files (parsed G a).config
        state.config j daemon.tasks os from loaded limits limiting
        (Run-IsJoint R X V state.config j os daemon run).tasks
    where
      ok_injective : (b a : Arguments G) → ◌≡◌ {A = Outcome ℕ (Arguments G)} (ok b) (ok a) → b ≡ a
      ok_injective b a e = ground (arith, e)
