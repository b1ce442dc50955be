-- ===== src/Limiter/World/Verdict.antt =====
-- When `check_sasl` of src/limiter.rs lets a message through, in terms of what was recorded.
use mathlib.Core.Option.{some-injective}
use postfix_ratelimitd.Base.{
  ℕ, ◌+◌, ◌≡◌, sym, ◌∙◌, ap, Bool, true, false, List, map, Option, none, some, ok, arith, All,
  All-both, All-weaken, get_elem?, ◌≢◌, [], ◌∷◌, is_empty, Outcome,
}
use postfix_ratelimitd.Base.Text.{Text}
use postfix_ratelimitd.Config.Window.{Window, from_secs}
use postfix_ratelimitd.Config.Bucket.{bucket_size}
use postfix_ratelimitd.Config.Plan.Shape.{new-IsWellFormed}
use postfix_ratelimitd.Config.Plan.Admission.{Admits, AdmitsWindow, new-Admits}
use postfix_ratelimitd.Valkey.{Valkey, IsValkey}
use postfix_ratelimitd.Limiter.Log.{weight}
use postfix_ratelimitd.Limiter.Script.{check_windows, run_script}
use postfix_ratelimitd.Limiter.Script.Window.{
  check_windows-Passes, Passes-check_windows, check_windows_verdict,
}
use postfix_ratelimitd.Limiter.Check.{
  RedisError, answered, bucket_keys, check_sasl, deliver, read_reply,
}
use postfix_ratelimitd.Limiter.World.{World, Call, start, plan_of, run}
use postfix_ratelimitd.Limiter.World.Kept.{AllHold, start-AllHold, run-AllHold}
use postfix_ratelimitd.Limiter.World.Totals.{
  in_span, in_span-le-counted, counted-le_later, window_total-counted,
}

module _ (V : Valkey) (laws : IsValkey V) (key_prefix : Text) (windows_of : Text → List Window)
    (w : World V) (v : AllHold V laws key_prefix windows_of w) (user : Text) (count : ℕ) where
  abbrev verdict : Option Bool
  verdict =
      check_windows (V.time w.db) count (plan_of V key_prefix windows_of user).bucket_sizes
        (map (V.hgetall w.db)
          (bucket_keys key_prefix user (plan_of V key_prefix windows_of user).bucket_sizes))
        (plan_of V key_prefix windows_of user).windows

  abbrev reply : Outcome RedisError Bool
  reply =
      (check_sasl V key_prefix user count (plan_of V key_prefix windows_of user) none answered
        w.db).0

  -- The message and what was recorded in the last `span` seconds,
  abbrev recent : ℕ → ℕ
  recent span = count + weight (in_span user (V.time w.db) span) w.log

  -- and in the last `span` seconds and one bucket.
  abbrev recent_buckets : ℕ → ℕ
  recent_buckets span = recent (span + bucket_size (from_secs span))

  has_verdict : (b : Bool) × (verdict ≡ some b)
  has_verdict =
      check_windows_verdict (V.time w.db) count _ _ (plan_of V key_prefix windows_of user).windows (
        All-weaken _ _ _
          (λ win f. (
            _,
            window_total-counted V laws key_prefix w user (plan_of V key_prefix windows_of user) win
                f count,
          ))
          (new-IsWellFormed (windows_of user)).fits)

  no_element : (xs : List ℕ) (i x : ℕ) → is_empty xs ≡ true → get_elem? xs i ≢ some x
  no_element [] i x e h = cc
  no_element (y ∷ ys) i x e h = cc

  unrestricted-verdict :
      is_empty (plan_of V key_prefix windows_of user).bucket_sizes ≡ true → verdict ≡ some true
  unrestricted-verdict e =
      Passes-check_windows (V.time w.db) count _ _ (plan_of V key_prefix windows_of user).windows (
        All-weaken _ _ _ (λ win f. absurd (no_element _ win.key_index f.size e f.has_size))
          (new-IsWellFormed (windows_of user)).fits)

  reply-verdict : (b : Bool) → verdict ≡ some b → reply ≡ ok b
  unfolding check_sasl deliver run_script read_reply
  reply-verdict true e = ground (arith, e)
  reply-verdict false e = ground (arith, e, unrestricted-verdict)

  room-passes :
      All (Admits recent_buckets) (plan_of V key_prefix windows_of user).windows
      → verdict ≡ some true
  room-passes room =
      Passes-check_windows (V.time w.db) count _ _ (plan_of V key_prefix windows_of user).windows (
        All-weaken _ _ _
          (λ win facts. (
            _,
            window_total-counted V laws key_prefix w user (plan_of V key_prefix windows_of user) win
                facts.0 count,
            ground (
              arith,
              counted-le_later V laws key_prefix w user win.span_secs (v user win facts.0),
              facts.1,
            ),
          ))
          (All-both _ _ _ (new-IsWellFormed (windows_of user)).fits room))

  passes-recent :
      verdict ≡ some true → All (Admits recent) (plan_of V key_prefix windows_of user).windows
  passes-recent passed =
      All-weaken _ _ _
        (λ win facts.
          let total =
            window_total-counted V laws key_prefix w user (plan_of V key_prefix windows_of user) win
              facts.0 count in
          let same = some-injective facts.1.0 _ (sym facts.1.1 ∙ total) in
          omega (
            arith,
            same,
            facts.1.2,
            in_span-le-counted V laws key_prefix w user win.span_secs (v user win facts.0),
          ))
        (All-both _ _ _ (new-IsWellFormed (windows_of user)).fits
          (check_windows-Passes (V.time w.db) count _ _ _ passed))

  verdict_of_reply : (b : Bool) → reply ≡ ok b → verdict ≡ some b
  verdict_of_reply b h =
      let (c, e) = has_verdict in e ∙ ap some (ok-injective c b (sym (reply-verdict c e) ∙ h))
    where
      ok-injective : (x y : Bool) → ◌≡◌ {A = Outcome RedisError Bool} (ok x) (ok y) → x ≡ y
      ok-injective x y p = cc

module _ (V : Valkey) (laws : IsValkey V) (key_prefix : Text) (windows_of : Text → List Window)
    (calls : List Call) (user : Text) (count : ℕ) where
  abbrev now_world : World V
  now_world = run V key_prefix windows_of (start V) calls

  now_world-AllHold : AllHold V laws key_prefix windows_of now_world
  now_world-AllHold =
      run-AllHold V laws key_prefix windows_of (start V) calls
        (start-AllHold V laws key_prefix windows_of)

  -- The reply to one more message of `user`, if the network answers.
  abbrev pub next_reply : Outcome RedisError Bool
  next_reply =
      (check_sasl V key_prefix user count (plan_of V key_prefix windows_of user) none answered
        now_world.db).0

  -- The recipients of the message and of what was recorded in the last `span` seconds.
  abbrev pub recent_total : ℕ → ℕ
  recent_total span = count + weight (in_span user (V.time now_world.db) span) now_world.log

  -- After any history, a message is accepted only if, for every configured window, its recipients
  -- and those recorded in the last `duration` seconds are together within the window's count.
  pub accepted_within : next_reply ≡ ok true → All (AdmitsWindow recent_total) (windows_of user)
  accepted_within accepted =
      let v = now_world-AllHold in
      (new-Admits recent_total (windows_of user)).0 (
        passes-recent V laws key_prefix windows_of now_world v user count
          (verdict_of_reply V laws key_prefix windows_of now_world v user count true accepted))

  -- After any history, a message is accepted if, for every configured window, its recipients and
  -- those recorded in the last `duration` seconds and one more bucket are within the window's count:
  -- buckets overcount by what is at most one bucket older than the window.
  pub accepts_with_room :
      All
        (AdmitsWindow (λ span. recent_total (span + bucket_size (from_secs span))))
        (windows_of user)
      → next_reply ≡ ok true
  accepts_with_room room =
      let v = now_world-AllHold in
      reply-verdict V laws key_prefix windows_of now_world v user count true (
        room-passes V laws key_prefix windows_of now_world v user count
          ((new-Admits _ (windows_of user)).1 room))
