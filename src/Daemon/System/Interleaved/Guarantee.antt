-- ===== src/Daemon/System/Interleaved/Guarantee.antt =====
-- What Postfix can count on, with the steps of src/bin/postfix-ratelimitd.rs's reload worker apart.
use postfix_ratelimitd.Base.{ℕ, ◌+◌, ◌≤◌, ◌≡◌, List, ok, sym, subst, All}
use postfix_ratelimitd.Base.Text.{Text}
use postfix_ratelimitd.Config.Redis.{RedisApi, IsRedisApi}
use postfix_ratelimitd.Config.Rules.{RegexApi}
use postfix_ratelimitd.Config.Load.{returned, Config, Files, load}
use postfix_ratelimitd.Valkey.{Valkey, IsValkey}
use postfix_ratelimitd.Limiter.Log.{recorded_between}
use postfix_ratelimitd.Daemon.Stats.{Journal}
use postfix_ratelimitd.Daemon.System.{Occurrence}
use postfix_ratelimitd.Daemon.System.Promise.{PathLimits, IsLimiting}
use postfix_ratelimitd.Daemon.System.Guarantee.{passed-le-limit}
use postfix_ratelimitd.Daemon.System.Interleaved.{Tasks, launched, Run}
use postfix_ratelimitd.Daemon.System.Interleaved.Simulation.{Run-refines}

module _ (R : RedisApi) (X : RegexApi) (V : Valkey) (laws : IsValkey V) (redis : IsRedisApi R)
    (home : R.Info) (key_prefix user : Text) (span limit : ℕ) where
  -- The bound of the system with whole reloads holds for reloads in steps.
  pub Run-le-limit :
      (files : Files R X) (path : Text) (config : Config R X) (j : Journal) (t : Tasks R X V)
      (os : List (Occurrence R X V)) (from : ℕ)
      → load R X files path ≡ returned (ok config)
      → PathLimits R X V home key_prefix user span limit files path
      → All (IsLimiting R X V home key_prefix user span limit) os
      → Run R X V (launched R X V config j) os t
      → recorded_between t.system.passed user from (from + span) ≤ limit
  Run-le-limit files path config j t os from loaded limits limiting run =
      let (_, same) = Run-refines R X V config j t os run in
      subst (λ s. recorded_between s.passed user from (from + span) ≤ limit) (sym same)
        (passed-le-limit R X V laws redis home key_prefix user span limit files path config j os
          from loaded limits limiting)
