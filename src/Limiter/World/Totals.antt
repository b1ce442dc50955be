-- ===== src/Limiter/World/Totals.antt =====
-- What the script of lua/check_and_record.lua counts for a window, against the log.
use native.Mathlib.Nat.{div-mul-le_self}
use postfix_ratelimitd.Base.{
  ℕ, ◌+◌, ◌*◌, ◌/◌, ◌≤◌, ◌<◌, ◌≡◌, Bool, ◌&&◌, some, ◌==◌, ltb, arith, get_elem?-map, map,
}
use postfix_ratelimitd.Base.Text.{Text, text_eq}
use postfix_ratelimitd.Config.Window.{from_secs}
use postfix_ratelimitd.Config.Bucket.Size.{bucket_size_bounds}
use postfix_ratelimitd.Config.Plan.{PlannedWindow, CheckPlan}
use postfix_ratelimitd.Config.Plan.Shape.{Fits}
use postfix_ratelimitd.Config.Plan.Spans.{size_of}
use postfix_ratelimitd.Valkey.{Valkey, IsValkey}
use postfix_ratelimitd.Limiter.Log.{
  Event, weight, weight_mono, total_of, weight-le-total_of, total_of-le-weight,
}
use postfix_ratelimitd.Limiter.Script.{window_total}
use postfix_ratelimitd.Limiter.Script.Window.{in_window, window_total_at}
use postfix_ratelimitd.Limiter.World.{World}
use postfix_ratelimitd.Limiter.World.Invariant.{in_bucket, key_of, Holds}
use postfix_ratelimitd.Limiter.Check.{bucket_keys}

bucket_end : (t size : ℕ) → 0 < size → t < (t / size + 1) * size
bucket_end t size pos = ground arith

-- The messages of `user` that are less than `span` seconds old,
abbrev pub in_span : Text → ℕ → ℕ → Event → Bool
in_span user now span e = text_eq e.user user && ltb now (e.at + span)

-- and those whose bucket has not ended before that.
abbrev in_buckets : Text → ℕ → ℕ → ℕ → Event → Bool
in_buckets user now span size e = text_eq e.user user && in_window now span size (e.at / size)

pub size_of-positive : (span : ℕ) → 0 < size_of span
size_of-positive span = (bucket_size_bounds (from_secs span)).1

module _ (V : Valkey) (laws : IsValkey V) (key_prefix : Text) (w : World V) (user : Text) where
  -- What the buckets of a window of `span` seconds hold.
  abbrev pub counted : ℕ → ℕ
  counted span =
      total_of (in_window (V.time w.db) span (size_of span))
        (V.hgetall w.db (key_of V key_prefix user (size_of span)))

  module _ (span : ℕ) (v : Holds V key_prefix user (size_of span) span w) where
    pub in_span-le-counted : weight (in_span user (V.time w.db) span) w.log ≤ counted span
    in_span-le-counted =
        weight-le-total_of (λ e. e.at / size_of span) (in_window (V.time w.db) span (size_of span))
          w.log _ (in_span user (V.time w.db) span)
          (λ e t. ground (arith, bucket_end e.at (size_of span) (size_of-positive span)))
          λ id t. ground (
            arith,
            v.counts id,
            weight_mono (λ e. in_span user (V.time w.db) span e && e.at / size_of span == id)
                (in_bucket user (size_of span) id) w.log (λ e h. ground arith),
          )

    counted-le-in_buckets :
        counted span ≤ weight (in_buckets user (V.time w.db) span (size_of span)) w.log
    counted-le-in_buckets =
        total_of-le-weight (λ e. e.at / size_of span) (in_window (V.time w.db) span (size_of span))
          w.log _ (in_buckets user (V.time w.db) span (size_of span)) (laws.distinct w.db _)
          λ id t. ground (
            arith,
            v.counts id,
            weight_mono (in_bucket user (size_of span) id)
                (λ e.
                  in_buckets user (V.time w.db) span (size_of span) e && e.at / size_of span == id)
                w.log (λ e h. ground arith),
          )

    -- Buckets make a message count for at most one bucket longer than its window.
    pub counted-le_later :
        counted span ≤ weight (in_span user (V.time w.db) (span + size_of span)) w.log
    counted-le_later = omega (
      arith,
      counted-le-in_buckets,
      weight_mono (in_buckets user (V.time w.db) span (size_of span))
          (in_span user (V.time w.db) (span + size_of span)) w.log
          (λ e h. ground (arith, div-mul-le_self e.at (size_of span))),
    )

  module _ (plan : CheckPlan) (win : PlannedWindow) (f : Fits plan win) where
    pub window_total-counted :
        (count : ℕ)
        → window_total
            (V.time w.db)
            count
            plan.bucket_sizes
            (map (V.hgetall w.db) (bucket_keys key_prefix user plan.bucket_sizes))
            win
          ≡ some (count + counted win.span_secs)
    window_total-counted count = rw (← f.of_span) (
        window_total_at (V.time w.db) count _ _ win f.size _ f.has_size (
          get_elem?-map (V.hgetall w.db) _ win.key_index
            (get_elem?-map (key_of V key_prefix user) _ win.key_index f.has_size)))
