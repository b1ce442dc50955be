-- ===== src/Daemon/Stats/Throttle.antt =====
-- `log_throttled` of src/bin/postfix-ratelimitd.rs over one stats interval.
use postfix_ratelimitd.Base.{
  ℕ, zero, suc, ◌+◌, ◌≡◌, ◌<◌, List, [], ◌∷◌, arith, min, ltb, if◌then◌else◌,
}
use postfix_ratelimitd.Daemon.Stats.{
  LogKind, LogLine, written, suppressing, Counter, accepted, rejected, failed_deferred,
  failed_permitted, unauthenticated, malformed, misconfigured, connections_accepted,
  connections_rejected, accept_errors, Stats, load, fetch_add, Journal, log_throttled,
}

-- `n` occurrences of one condition.
abbrev pub occurrences : ℕ → Counter → LogKind → Journal → Journal
occurrences zero counter kind j = j
occurrences (suc n) counter kind j = log_throttled counter kind (occurrences n counter kind j)

abbrev pub written_lines : List LogLine → ℕ
written_lines [] = 0
written_lines (written kind ∷ rest) = suc (written_lines rest)
written_lines (suppressing kind ∷ rest) = written_lines rest

abbrev pub notices : List LogLine → ℕ
notices [] = 0
notices (written kind ∷ rest) = notices rest
notices (suppressing kind ∷ rest) = suc (notices rest)

load-fetch_add :
    (counter : Counter) (s : Stats)
    → load counter s < 18446744073709551615
    → load counter (fetch_add counter s) ≡ load counter s + 1
unfolding fetch_add
load-fetch_add accepted s h = omega arith
load-fetch_add rejected s h = omega arith
load-fetch_add failed_deferred s h = omega arith
load-fetch_add failed_permitted s h = omega arith
load-fetch_add unauthenticated s h = omega arith
load-fetch_add malformed s h = omega arith
load-fetch_add misconfigured s h = omega arith
load-fetch_add connections_accepted s h = omega arith
load-fetch_add connections_rejected s h = omega arith
load-fetch_add accept_errors s h = omega arith

-- Over an interval that starts with the counter at 0, `n` occurrences (fewer than 2^64) leave the
-- counter at `n`; at most five of them are logged in full, and one notice follows if there are more.
pub log_throttled_interval :
    (n : ℕ) (counter : Counter) (kind : LogKind) (j : Journal)
    → load counter j.stats ≡ 0
    → n < 18446744073709551616
    → (load counter (occurrences n counter kind j).stats ≡ n)
      × (written_lines (occurrences n counter kind j).lines ≡ written_lines j.lines + min n 5)
      × (notices (occurrences n counter kind j).lines
          ≡ notices j.lines + (if ltb 5 n then 1 else 0))
unfolding log_throttled
log_throttled_interval zero counter kind j h lt = (h, omega arith, ground arith)
log_throttled_interval (suc n) counter kind j h lt =
    let ih = log_throttled_interval n counter kind j h (omega arith) in
    let next = load-fetch_add counter (occurrences n counter kind j).stats (omega (arith, ih.0)) in
    ground (arith, ih.0, ih.1, ih.2, next)
