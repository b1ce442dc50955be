-- ===== src/Limiter/Script.antt =====
-- lua/check_and_record.lua. Lua's numbers are doubles, which are exact below 2 ^ 53: here they are
-- natural numbers, and the integers of the two differences.
pub mod Window
pub mod Prune
pub mod Recording
pub mod Loop
pub mod Fresh
use postfix_ratelimitd.Base.{
  ℕ, ◌+◌, ◌*◌, ◌/◌, Bool, true, false, List, [], ◌∷◌, map, Option, none, some, ltb, if◌then◌else◌,
  or_else, and_then, get_elem?, ℤ, sub_ℕ, exceeds, at_most,
}
use postfix_ratelimitd.Base.Text.{Text}
use postfix_ratelimitd.Config.Plan.{PlannedWindow, CheckPlan}
use postfix_ratelimitd.Valkey.{Entries, Valkey}

-- `CheckRequest` of src/limiter.rs, which the script decodes from ARGV[1].
pub record CheckRequest : Type 0 where
  pub recipient_count : ℕ
  pub now_override : Option ℕ
  pub plan : CheckPlan

unfoldable pub lower : Option ℕ → ℕ → Option ℕ
lower none id = some id
lower (some least) id = if ltb id least then some id else some least

-- `min_id` after the fetch loop
unfoldable pub min_id : Option ℕ → Entries → Option ℕ
unfolding lower
min_id least [] = least
min_id least ((id, count) ∷ rest) = min_id (lower least id) rest

-- The counting loop of one window: a bucket counts as long as its end is past `oldest`.
unfoldable pub add_counted : ℤ → ℕ → ℕ → Entries → ℕ
add_counted oldest bucket_size total [] = total
add_counted oldest bucket_size total ((id, count) ∷ rest) =
    add_counted oldest bucket_size
      (if exceeds ((id + 1) * bucket_size) oldest then total + count else total) rest

-- The total of one window; `none` is the error that Lua raises on a key index out of range.
unfoldable pub window_total : ℕ → ℕ → List ℕ → List Entries → PlannedWindow → Option ℕ
window_total now recipient_count bucket_sizes buckets_by_key window =
    and_then (get_elem? bucket_sizes window.key_index) λ bucket_size.
      and_then (get_elem? buckets_by_key window.key_index) λ buckets.
        some (add_counted (sub_ℕ now window.span_secs) bucket_size recipient_count buckets)

-- The loop over the windows: false at the first one whose limit the total passes.
unfoldable pub check_windows : ℕ → ℕ → List ℕ → List Entries → List PlannedWindow → Option Bool
check_windows now recipient_count bucket_sizes buckets_by_key [] = some true
check_windows now recipient_count bucket_sizes buckets_by_key (window ∷ rest) =
    let later = check_windows now recipient_count bucket_sizes buckets_by_key rest in
    elim (window_total now recipient_count bucket_sizes buckets_by_key window) [
      | none ↦ none
      | some total ↦ if ltb window.limit total then some false else later
    ]

-- The ids whose buckets ended at `oldest` or before.
unfoldable pub stale : ℤ → ℕ → Entries → List ℕ
stale oldest bucket_size [] = []
stale oldest bucket_size ((id, count) ∷ rest) =
    let later = stale oldest bucket_size rest in
    if at_most ((id + 1) * bucket_size) oldest then id ∷ later else later

-- `min_id ~= nil and (min_id + 1) * bucket_size <= oldest`
unfoldable pub may_be_stale : ℤ → ℕ → Option ℕ → Bool
may_be_stale oldest bucket_size none = false
may_be_stale oldest bucket_size (some least) = at_most ((least + 1) * bucket_size) oldest

module _ (V : Valkey) where
  unfoldable pub prune : Text → ℤ → ℕ → Entries → V.Db → V.Db
  unfolding min_id stale may_be_stale
  prune key oldest bucket_size buckets d =
      if may_be_stale oldest bucket_size (min_id none buckets)
      then V.hdel key (stale oldest bucket_size buckets) d
      else d

  -- The body of the recording loop, for one key.
  unfoldable pub record_key : ℕ → ℕ → Text → ℕ → ℕ → Entries → V.Db → V.Db
  unfolding prune
  record_key now recipient_count key bucket_size retention buckets d =
      let counted = V.hincrby key (now / bucket_size) recipient_count d in
      let lasting = V.expire key (retention + bucket_size) counted in
      prune key (sub_ℕ now retention) bucket_size buckets lasting

  -- The recording loop, over the parallel arrays KEYS, `bucket_sizes`, `retention_secs` and
  -- `buckets_by_key`.
  unfoldable pub record_keys : ℕ → ℕ → List Text → List ℕ → List ℕ → List Entries → V.Db → V.Db
  record_keys now recipient_count (key ∷ keys) (size ∷ sizes) (kept ∷ keeps) (bs ∷ buckets) d =
      record_keys now recipient_count keys sizes keeps buckets
        (record_key now recipient_count key size kept bs d)
  record_keys now recipient_count _ _ _ _ d = d

  -- The script where the server takes all its commands: its reply, `none` for an error of its own, and
  -- the database that it leaves. A command that the server refuses is `refused` of Limiter/Check.
  unfoldable pub run_script : List Text → CheckRequest → V.Db → Option ℕ × V.Db
  run_script keys request d =
      let plan = request.plan in
      let now = or_else request.now_override (V.time d) in
      let buckets_by_key = map (V.hgetall d) keys in
      elim (check_windows now request.recipient_count plan.bucket_sizes buckets_by_key
        plan.windows) [
          | none ↦ (none, d)
          | some false ↦ (some 0, d)
          | some true ↦ (
            some 1,
            record_keys now request.recipient_count keys plan.bucket_sizes plan.retention_secs
                buckets_by_key d,
          )
        ]
