-- ===== src/Daemon/Stats.antt =====
-- src/bin/postfix-ratelimitd.rs: `Stats`, `report_stats` and `log_throttled`.
pub mod Throttle
use postfix_ratelimitd.Base.{ℕ, ◌+◌, ◌%◌, Bool, List, [], ◌∷◌, ltb, ◌==◌, if◌then◌else◌}

-- What a line is about.
pub data LogKind : Type 0 where
  wiring unauthenticated redis_error connection_limit : LogKind

-- A line in full, or the notice that further ones are suppressed.
pub data LogLine : Type 0 where
  written suppressing : LogKind → LogLine

pub data Counter : Type 0 where
  accepted rejected failed_deferred failed_permitted unauthenticated malformed misconfigured :
      Counter
  connections_accepted connections_rejected accept_errors : Counter

pub record Stats : Type 0 where
  pub accepted : ℕ
  pub rejected : ℕ
  pub failed_deferred : ℕ
  pub failed_permitted : ℕ
  pub unauthenticated : ℕ
  pub malformed : ℕ
  pub misconfigured : ℕ
  pub connections_accepted : ℕ
  pub connections_rejected : ℕ
  pub accept_errors : ℕ

abbrev pub no_stats : Stats
no_stats = record {
  accepted = 0;
  rejected = 0;
  failed_deferred = 0;
  failed_permitted = 0;
  unauthenticated = 0;
  malformed = 0;
  misconfigured = 0;
  connections_accepted = 0;
  connections_rejected = 0;
  accept_errors = 0;
}

abbrev pub load : Counter → Stats → ℕ
load accepted s = s.accepted
load rejected s = s.rejected
load failed_deferred s = s.failed_deferred
load failed_permitted s = s.failed_permitted
load unauthenticated s = s.unauthenticated
load malformed s = s.malformed
load misconfigured s = s.misconfigured
load connections_accepted s = s.connections_accepted
load connections_rejected s = s.connections_rejected
load accept_errors s = s.accept_errors

-- `AtomicU64::fetch_add(1)` wraps.
abbrev pub next_u64 : ℕ → ℕ
next_u64 n = (n + 1) % 18446744073709551616

unfoldable pub fetch_add : Counter → Stats → Stats
fetch_add accepted s = record s { accepted = next_u64 s.accepted }
fetch_add rejected s = record s { rejected = next_u64 s.rejected }
fetch_add failed_deferred s = record s { failed_deferred = next_u64 s.failed_deferred }
fetch_add failed_permitted s = record s { failed_permitted = next_u64 s.failed_permitted }
fetch_add unauthenticated s = record s { unauthenticated = next_u64 s.unauthenticated }
fetch_add malformed s = record s { malformed = next_u64 s.malformed }
fetch_add misconfigured s = record s { misconfigured = next_u64 s.misconfigured }
fetch_add connections_accepted s = record s {
  connections_accepted = next_u64 s.connections_accepted;
}
fetch_add connections_rejected s = record s {
  connections_rejected = next_u64 s.connections_rejected;
}
fetch_add accept_errors s = record s { accept_errors = next_u64 s.accept_errors }

-- The daemon's counters and what it has logged, the newest line first.
pub record Journal : Type 0 where
  pub stats : Stats
  pub lines : List LogLine

unfoldable pub count : Counter → Journal → Journal
unfolding fetch_add
count counter j = record j { stats = fetch_add counter j.stats }

abbrev pub log_suppression_limit : ℕ
log_suppression_limit = 5

throttle : ℕ → LogKind → List LogLine → List LogLine
throttle previous kind lines =
    if ltb previous log_suppression_limit
    then written kind ∷ lines
    else if previous == log_suppression_limit
    then suppressing kind ∷ lines
    else lines

unfoldable pub log_throttled : Counter → LogKind → Journal → Journal
unfolding fetch_add throttle
log_throttled counter kind j = record {
  stats = fetch_add counter j.stats;
  lines = throttle (load counter j.stats) kind j.lines;
}

-- The line printed: every counter but `misconfigured`, and the live connections.
pub record Report : Type 0 where
  pub counted : Stats
  pub active_connections : ℕ

abbrev pub report_stats : ℕ → Journal → Report × Journal
report_stats active j = (
  record { counted = record j.stats { misconfigured = 0 }; active_connections = active },
  record j { stats = no_stats },
)
