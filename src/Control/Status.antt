-- ===== src/Control/Status.antt =====
-- src/control/mod.rs: `compute_sasl_status`. Its reads are not one script: other clients may write
-- between them, so each read has a database of its own.
pub mod Agreement
pub mod Total
use postfix_ratelimitd.Base.{
  ℕ, ◌+◌, ◌-◌, ◌*◌, ◌%◌, Bool, true, false, ◌&&◌, List, [], ◌∷◌, Option, none, some, ltb,
  if◌then◌else◌, is_empty, get_elem?, map,
}
use postfix_ratelimitd.Base.Text.{Text}
use postfix_ratelimitd.Config.Plan.{PlannedWindow, CheckPlan}
use postfix_ratelimitd.Valkey.{Valkey, Entries}
use postfix_ratelimitd.Limiter.Check.{bucket_keys}

pub record WindowStatus : Type 0 where
  pub span_secs : ℕ
  pub limit : ℕ
  pub current_total : ℕ

pub data StatusResponse : Type 0 where
  unrestricted : StatusResponse
  limited : ℕ → List WindowStatus → StatusResponse

-- `Ok`, `Err`, or the panic of an index out of range.
pub data StatusResult : Type 0 where
  done : StatusResponse → StatusResult
  failed panicked : StatusResult

-- The reply of HGETALL as a `HashMap<u64, u32>`: a number that does not fit is an error.
pub to_hash_map : Entries → Option Entries
to_hash_map [] = some []
to_hash_map ((id, count) ∷ rest) = elim (to_hash_map rest) [
  | none ↦ none
  | some entries ↦
      if ltb id 18446744073709551616 && ltb count 4294967296
      then some ((id, count) ∷ entries)
      else none
]

-- `(*id + 1) * bucket_size` on u64
pub bucket_end : ℕ → ℕ → ℕ
bucket_end id bucket_size = (((id + 1) % 18446744073709551616) * bucket_size) % 18446744073709551616

-- The sum on u32 of the buckets whose end is past `oldest`.
pub current_total : ℕ → ℕ → Entries → ℕ
unfolding bucket_end
current_total oldest bucket_size [] = 0
current_total oldest bucket_size ((id, count) ∷ rest) =
    let later = current_total oldest bucket_size rest in
    if ltb oldest (bucket_end id bucket_size) then (count + later) % 4294967296 else later

-- One window; `none` is an index out of range. The subtraction saturates.
pub window_status : ℕ → List ℕ → List Entries → PlannedWindow → Option WindowStatus
unfolding current_total
window_status now bucket_sizes buckets_by_key window =
    elim (get_elem? bucket_sizes window.key_index) [
      | none ↦ none
      | some bucket_size ↦ elim (get_elem? buckets_by_key window.key_index) [
        | none ↦ none
        | some buckets ↦ some (record {
          span_secs = window.span_secs;
          limit = window.limit;
          current_total = current_total (now - window.span_secs) bucket_size buckets;
        })
      ]
    ]

pub window_statuses : ℕ → List ℕ → List Entries → List PlannedWindow → Option (List WindowStatus)
unfolding window_status
window_statuses now bucket_sizes buckets_by_key [] = some []
window_statuses now bucket_sizes buckets_by_key (window ∷ rest) =
    let later = window_statuses now bucket_sizes buckets_by_key rest in
    elim (window_status now bucket_sizes buckets_by_key window) [
      | none ↦ none
      | some status ↦ elim later [ none ↦ none | some statuses ↦ some (status ∷ statuses) ]
    ]

module _ (V : Valkey) where
  -- The loop over the keys, each read of a database or lost.
  pub fetch : List Text → List (Option (V.Db)) → Option (List Entries)
  unfolding to_hash_map
  fetch [] reads = some []
  fetch (key ∷ keys) [] = none
  fetch (key ∷ keys) (none ∷ reads) = none
  fetch (key ∷ keys) (some d ∷ reads) =
      let later = fetch keys reads in
      elim (to_hash_map (V.hgetall d key)) [
        | none ↦ none
        | some entries ↦ elim later [ none ↦ none | some buckets ↦ some (entries ∷ buckets) ]
      ]

  pub report : ℕ → CheckPlan → Option (List Entries) → StatusResult
  unfolding window_statuses
  report now plan none = failed
  report now plan (some buckets_by_key) =
      elim (window_statuses now plan.bucket_sizes buckets_by_key plan.windows) [
        | none ↦ panicked
        | some windows ↦ done (limited now windows)
      ]

  -- `at_time` is the database that TIME sees.
  pub compute_sasl_status :
      Text → CheckPlan → Text → Option (V.Db) → List (Option (V.Db)) → StatusResult
  unfolding fetch report
  compute_sasl_status key_prefix plan username at_time reads =
      if is_empty plan.bucket_sizes then done unrestricted else elim at_time [
        | none ↦ failed
        | some d ↦
            report (V.time d) plan (fetch (bucket_keys key_prefix username plan.bucket_sizes) reads)
      ]
