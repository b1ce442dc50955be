-- ===== src/Config/Bucket.antt =====
-- src/config.rs: `bucket_size`, the loop that doubles the bucket while enough buckets are left.
pub mod Size
use postfix_ratelimitd.Base.{ℕ, zero, suc, ◌*◌, ◌/◌, Bool, true, false, ◌&&◌, leb}
use postfix_ratelimitd.Config.Window.{
  Duration, bucket_target_count, min_bucket_size, max_bucket_size,
}

-- The loop's test at bucket size `secs`, for a window of `total` seconds.
pub can_double : ℕ → ℕ → Bool
can_double total secs =
    leb (secs * 2) max_bucket_size.secs && leb bucket_target_count (total / (secs * 2))

-- The loop, on fuel: the cases of the `elim` wait for the test.
pub double : ℕ → ℕ → ℕ → ℕ
double zero total secs = secs
double (suc fuel) total secs = elim (can_double total secs) [
  | true ↦ double fuel total (secs * 2)
  | false ↦ secs
]

-- The size starts at 1 and 2 ^ 17 is past the largest bucket, so 17 rounds are enough.
unfoldable pub bucket_size : Duration → ℕ
unfolding can_double double
bucket_size duration = double 17 duration.secs min_bucket_size.secs
