-- ===== src/UnitTests/Throttling.antt =====
-- src/bin/postfix-ratelimitd.rs, `tests`: `log_throttled` up to the limit and beyond.
use postfix_ratelimitd.Base.{
  ℕ, zero, suc, ◌≡◌, ◌+◌, ◌*◌, refl, Bool, true, ◌&&◌, ◌==◌, List, [], ◌∷◌,
}
use postfix_ratelimitd.Daemon.Stats.{
  Journal, LogLine, written, suppressing, wiring, misconfigured, load, no_stats,
  log_suppression_limit, log_throttled, fetch_add,
}

-- So many calls
abbrev repeat : ℕ → Journal → Journal
repeat zero j = j
repeat (suc more) j = repeat more (log_throttled misconfigured wiring j)

-- How often `log_line` was called
abbrev calls : List LogLine → ℕ
calls [] = 0
calls (written kind ∷ lines) = calls lines + 1
calls (suppressing kind ∷ lines) = calls lines

abbrev log_throttled_calls_log_line_up_to_the_limit_then_suppresses : Bool
log_throttled_calls_log_line_up_to_the_limit_then_suppresses =
    let after = repeat (log_suppression_limit * 2) (record { stats = no_stats; lines = [] }) in
    (calls after.lines == log_suppression_limit)
    && (load misconfigured after.stats == log_suppression_limit * 2)

all_pass : (log_throttled_calls_log_line_up_to_the_limit_then_suppresses ≡ true)
unfolding log_throttled fetch_add
all_pass = refl
