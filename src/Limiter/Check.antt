-- ===== src/Limiter/Check.antt =====
-- src/limiter.rs: `Limiter::check_sasl`.
pub mod Atomic
use postfix_ratelimitd.Base.{
  ℕ, Bool, true, false, List, [], ◌∷◌, map, Option, none, some, ◌==◌, if◌then◌else◌, Outcome, ok,
  err, is_empty,
}
use postfix_ratelimitd.Base.Text.{Text}
use postfix_ratelimitd.Config.Plan.{CheckPlan}
use postfix_ratelimitd.Valkey.{Valkey}
use postfix_ratelimitd.Limiter.Keys.{sasl_identity_kind, identity, bucket_key}
use postfix_ratelimitd.Limiter.Script.{CheckRequest, run_script}

-- What becomes of one script invocation: the server runs the script and answers; the network loses the
-- request or the reply; or the server answers with an error of its own (OOM, MISCONF, READONLY, LOADING)
-- before the script has written anything.
pub data Delivery : Type 0 where
  answered lost_request lost_reply refused : Delivery

-- `redis::RedisError`: the connection failed, or the server answered with an error.
pub data RedisError : Type 0 where
  connection server : RedisError

-- The keys of an invocation, one for each bucket size.
abbrev pub bucket_keys : Text → Text → List ℕ → List Text
bucket_keys key_prefix user = map (bucket_key key_prefix (identity sasl_identity_kind user))

-- `invoke_async(..)? == 1`
unfoldable pub read_reply : Option ℕ → Outcome RedisError Bool
read_reply none = err server
read_reply (some allowed) = ok (allowed == 1)

module _ {D : Type 0} where
  -- `d` is the database before the script, and the pair its reply and the database after it.
  unfoldable pub deliver : Delivery → D → Option ℕ × D → Outcome RedisError Bool × D
  deliver answered d (reply, d') = (read_reply reply, d')
  deliver lost_request d (reply, d') = (err connection, d)
  deliver lost_reply d (reply, d') = (err connection, d')
  deliver refused d (reply, d') = (err server, d)

module _ (V : Valkey) (key_prefix : Text) where
  unfoldable pub check_sasl :
      Text → ℕ → CheckPlan → Option ℕ → Delivery → V.Db → Outcome RedisError Bool × V.Db
  check_sasl sasl_username recipient_count plan now_override delivery d =
      if is_empty plan.bucket_sizes
      then (ok true, d)
      else deliver delivery d (
          run_script V (bucket_keys key_prefix sasl_username plan.bucket_sizes)
            (record { recipient_count = recipient_count; now_override = now_override; plan = plan })
            d)
