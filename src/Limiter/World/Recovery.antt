-- ===== src/Limiter/World/Recovery.antt =====
-- A sender whom `check_sasl` of src/limiter.rs has turned away is let through again.
use postfix_ratelimitd.Base.{
  ◌++◌, ◌≤◌, ℕ, ◌+◌, ◌≡◌, true, List, ok, arith, All, All-weaken, [], ◌∷◌,
}
use postfix_ratelimitd.Base.Text.{Text}
use postfix_ratelimitd.Config.Window.{Window, from_secs}
use postfix_ratelimitd.Config.Bucket.{bucket_size}
use postfix_ratelimitd.Valkey.{Valkey, IsValkey}
use postfix_ratelimitd.Limiter.Log.{weight_none_All}
use postfix_ratelimitd.Limiter.World.{Call, elapse, start, run}
use postfix_ratelimitd.Limiter.World.Kept.{run-IsPast, run-elapse}
use postfix_ratelimitd.Limiter.World.Totals.{in_span}
use postfix_ratelimitd.Limiter.World.Verdict.{next_reply, recent_total, accepts_with_room}

module _ (V : Valkey) (laws : IsValkey V) (key_prefix : Text) (windows_of : Text → List Window)
    (calls : List Call) (user : Text) (count seconds : ℕ) where
  -- The message is within every limit by itself, and the pause is as long as the window and one bucket.
  abbrev pub IsOver : Window → Type 0
  IsOver window =
      (count ≤ window.count)
      × (window.duration.secs + bucket_size (from_secs window.duration.secs) ≤ seconds)

  nothing_recent :
      (span : ℕ)
      → span ≤ seconds
      → recent_total V laws key_prefix windows_of (calls ++ elapse seconds ∷ []) user count span
        ≡ count
  nothing_recent span le =
      let before = run V key_prefix windows_of (start V) calls in
      let past = run-IsPast V laws key_prefix windows_of (start V) calls tt in
      let now = laws.time-elapse seconds before.db in
      rw (run-elapse V laws key_prefix windows_of (start V) calls seconds)
        let none_left =
            weight_none_All _ (in_span user (V.time (V.elapse seconds before.db)) span) before.log
              past (λ e h. ground (arith, h, now, le)) in
          omega (arith, none_left)

  -- After any history, a sender who has been turned away need only wait: once as much time has passed
  -- without a check as every configured window of the sender and one bucket last, a message whose
  -- recipients are within every window's count is accepted.
  pub next_reply-recovers :
      All IsOver (windows_of user)
      → next_reply V laws key_prefix windows_of (calls ++ elapse seconds ∷ []) user count ≡ ok true
  next_reply-recovers over =
      accepts_with_room V laws key_prefix windows_of (calls ++ elapse seconds ∷ []) user count (
        All-weaken IsOver _ (windows_of user) (λ window h. omega (arith, h.0, nothing_recent _ h.1))
          over)
