-- ===== src/Config/Plan.antt =====
-- src/config.rs: `PlannedWindow`, `CheckPlan` and `CheckPlan::new`.
pub mod Shape
pub mod Admission
pub mod Spans
use postfix_ratelimitd.Base.{
  ℕ, zero, suc, min, max, ◌&&◌, List, [], ◌∷◌, ◌++◌, Option, none, some, ◌==◌, if◌then◌else◌,
  length,
}
use postfix_ratelimitd.Config.Window.{Window}
use postfix_ratelimitd.Config.Bucket.{bucket_size}

-- `limit` is the largest total that the window admits.
pub record PlannedWindow : Type 0 where
  pub key_index : ℕ
  pub span_secs : ℕ
  pub limit : ℕ

pub record CheckPlan : Type 0 where
  pub bucket_sizes : List ℕ
  pub windows : List PlannedWindow
  pub retention_secs : List ℕ

abbrev pub empty_plan : CheckPlan
empty_plan = record { bucket_sizes = []; windows = []; retention_secs = [] }

-- `iter().position(|&existing| existing == size)`
unfoldable pub position : ℕ → List ℕ → Option ℕ
position size [] = none
position size (existing ∷ rest) =
    let later = position size rest in
    if existing == size then some zero else elim later [ none ↦ none | some i ↦ some (suc i) ]

-- `retention_secs[key_index] = retention_secs[key_index].max(span_secs)`
unfoldable pub raise_at : List ℕ → ℕ → ℕ → List ℕ
raise_at [] i span = []
raise_at (r ∷ rest) zero span = max r span ∷ rest
raise_at (r ∷ rest) (suc i) span = r ∷ raise_at rest i span

-- The `find` over the planned windows, and what its match does: take the smaller limit, or push.
unfoldable pub merge_window : PlannedWindow → List PlannedWindow → List PlannedWindow
merge_window new [] = new ∷ []
merge_window new (w ∷ rest) =
    if w.key_index == new.key_index && w.span_secs == new.span_secs
    then record w { limit = min w.limit new.limit } ∷ rest
    else w ∷ merge_window new rest

-- The loop's body once `key_index` is known, on the arrays that hold that key.
unfoldable pub plan_at : ℕ → CheckPlan → Window → CheckPlan
plan_at key_index plan window =
    let span_secs = window.duration.secs in
    record plan {
      retention_secs = raise_at plan.retention_secs key_index span_secs;
      windows =
          merge_window
            (record { key_index = key_index; span_secs = span_secs; limit = window.count })
            plan.windows;
    }

-- `unwrap_or_else`: a size that is not there gets a new key.
unfoldable pub push_key : CheckPlan → ℕ → CheckPlan
push_key plan size = record plan {
  bucket_sizes = plan.bucket_sizes ++ size ∷ [];
  retention_secs = plan.retention_secs ++ zero ∷ [];
}

unfoldable pub add_window : CheckPlan → Window → CheckPlan
unfolding plan_at push_key
add_window plan window =
    let size = bucket_size window.duration in
    elim (position size plan.bucket_sizes) [
      | some key_index ↦ plan_at key_index plan window
      | none ↦ plan_at (length plan.bucket_sizes) (push_key plan size) window
    ]

-- The loop of `CheckPlan::new`, from the plan built so far.
unfoldable pub add_windows : CheckPlan → List Window → CheckPlan
add_windows plan [] = plan
add_windows plan (window ∷ rest) = add_windows (add_window plan window) rest

unfoldable pub new : List Window → CheckPlan
unfolding add_windows
new windows = add_windows empty_plan windows
