-- ===== src/Config/Window.antt =====
-- src/config.rs: `Window`, and what it uses of `std::time::Duration`.
use postfix_ratelimitd.Base.{ℕ, ◌*◌, Bool, ◌&&◌, ◌||◌, ltb, ◌==◌}

-- `std::time::Duration`: `nanos` stays below 1_000_000_000.
pub record Duration : Type 0 where
  pub secs : ℕ
  pub nanos : ℕ

abbrev pub from_secs : ℕ → Duration
from_secs n = record { secs = n; nanos = 0 }

abbrev pub from_mins : ℕ → Duration
from_mins n = from_secs (n * 60)

abbrev pub from_hours : ℕ → Duration
from_hours n = from_secs (n * 3600)

-- `a < b` on durations
abbrev pub shorter : Duration → Duration → Bool
shorter a b = ltb a.secs b.secs || (a.secs == b.secs && ltb a.nanos b.nanos)

-- One recipient-count cap over a sliding time window.
pub record Window : Type 0 where
  pub count : ℕ
  pub duration : Duration

abbrev pub min_window_duration : Duration
min_window_duration = from_mins 1

abbrev pub max_window_duration : Duration
max_window_duration = from_hours 744

abbrev pub bucket_target_count : ℕ
bucket_target_count = 50

abbrev pub min_bucket_size : Duration
min_bucket_size = from_secs 1

abbrev pub max_bucket_size : Duration
max_bucket_size = from_hours 24
