-- ===== src/Limiter/Check/Atomic.antt =====
-- `check_sasl` of src/limiter.rs records a message once, for all its windows, or not at all.
use postfix_ratelimitd.Base.{
  ℕ, ◌≡◌, refl, Bool, true, false, List, [], ◌∷◌, map, Option, some, ok, arith, or_else, Outcome,
  is_empty, get_elem?, get_elem?-map,
}
use postfix_ratelimitd.Base.Text.{Text}
use postfix_ratelimitd.Config.Window.{Window}
use postfix_ratelimitd.Config.Plan.{CheckPlan, new}
use postfix_ratelimitd.Config.Plan.Shape.{HasRow, new-IsWellFormed}
use postfix_ratelimitd.Valkey.{Valkey, IsValkey}
use postfix_ratelimitd.Limiter.Keys.{sasl_identity_kind, identity, bucket_key}
use postfix_ratelimitd.Limiter.Keys.Injective.{sender_keys-Distinct}
use postfix_ratelimitd.Limiter.Script.{run_script, record_keys}
use postfix_ratelimitd.Limiter.Script.Recording.{Recorded}
use postfix_ratelimitd.Limiter.Script.Loop.{record_keys-Recorded}
use postfix_ratelimitd.Limiter.Script.Fresh.{IsFresh, record_keys-IsFresh}
use postfix_ratelimitd.Limiter.Check.{
  Delivery, RedisError, answered, lost_request, lost_reply, refused, bucket_keys, check_sasl,
  deliver, read_reply,
}

module _ (V : Valkey) (key_prefix user : Text) (count : ℕ) (plan : CheckPlan)
    (now_override : Option ℕ) (d : V.Db) where
  -- A rejected message changes nothing in the database, whatever its windows, also those that would
  -- have let it through.
  pub rejected_unchanged :
      (delivery : Delivery)
      → (check_sasl V key_prefix user count plan now_override delivery d).0 ≡ ok false
      → (check_sasl V key_prefix user count plan now_override delivery d).1 ≡ d
  unfolding check_sasl deliver run_script read_reply
  rejected_unchanged answered h = ground arith
  rejected_unchanged lost_request h = ground arith
  rejected_unchanged lost_reply h = ground arith
  rejected_unchanged refused h = ground arith

module _ (V : Valkey) (laws : IsValkey V) (key_prefix user : Text) (count : ℕ)
    (windows : List Window) (now_override : Option ℕ) (d : V.Db) where
  abbrev now : ℕ
  now = or_else now_override (V.time d)

  abbrev keys : List Text
  keys = bucket_keys key_prefix user (new windows).bucket_sizes

  -- The check of one message that the network answers.
  abbrev pub checked : Outcome RedisError Bool × V.Db
  checked = check_sasl V key_prefix user count (new windows) now_override answered d

  accepted_db :
      checked.0 ≡ ok true
      → is_empty (new windows).bucket_sizes ≡ false
      → checked.1
        ≡ record_keys V now count keys
            (new windows).bucket_sizes
            (new windows).retention_secs
            (map (V.hgetall d) keys)
            d
  unfolding check_sasl deliver run_script read_reply
  accepted_db h full = ground (arith, h, full)

  -- An accepted message is added once to the bucket of its time under every key of its plan, with
  -- every other bucket within the key's retention unchanged and the key's deadline moved to its
  -- retention and one bucket from now; and no bucket older than the retention is left.
  pub accepted-Recorded :
      (size kept : ℕ)
      → HasRow (new windows) size kept
      → checked.0 ≡ ok true
      → Recorded V
          (bucket_key key_prefix (identity sasl_identity_kind user) size)
          size
          kept
          now
          count
          d
          checked.1
        × IsFresh V laws now count
            (bucket_key key_prefix (identity sasl_identity_kind user) size)
            size
            kept
            checked.1
  accepted-Recorded size kept row h =
      let shape = new-IsWellFormed windows in
      let at_key =
        get_elem?-map (bucket_key key_prefix (identity sasl_identity_kind user)) _ row.index
          row.size_at in
      let at_buckets = get_elem?-map (V.hgetall d) keys row.index at_key in
      let distinct =
        sender_keys-Distinct key_prefix user (new windows).bucket_sizes shape.distinct in
      rw (accepted_db h (not_empty _ row.index size row.size_at)) (
        record_keys-Recorded V laws now count _ _ _ _ row.index d _ size kept _ distinct
            shape.positive at_key row.size_at row.kept_at at_buckets,
        record_keys-IsFresh V laws now count _ _ _ _ row.index d _ size kept _ distinct
            shape.positive at_key row.size_at row.kept_at at_buckets (λ id. refl),
      )
    where
      not_empty : (xs : List ℕ) (i x : ℕ) → get_elem? xs i ≡ some x → is_empty xs ≡ false
      not_empty [] i x e = cc
      not_empty (y ∷ ys) i x e = refl
