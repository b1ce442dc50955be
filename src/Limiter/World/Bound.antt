-- ===== src/Limiter/World/Bound.antt =====
-- A bound on what is recorded of a sender in any `span` seconds is kept by every step whose plan for
-- the sender enforces it. (src/limiter.rs, lua/check_and_record.lua and the plan of src/config.rs.)
use mathlib.Core.Option.{some-injective}
use postfix_ratelimitd.Base.{
  ℕ, ◌+◌, ◌≤◌, ◌≡◌, sym, subst, ◌∙◌, true, ◌&&◌, ◌∷◌, map, some, ltb, leb, arith, inl, inr,
  All-both, Bool-cases,
}
use postfix_ratelimitd.Base.Text.{Text, text_eq, text_eq_sound}
use postfix_ratelimitd.Config.Plan.{CheckPlan}
use postfix_ratelimitd.Config.Plan.Shape.{Fits, IsWellFormed}
use postfix_ratelimitd.Config.Plan.Spans.{size_of, Keeps, Fits-Keeps, Enforces, Enforces-All}
use postfix_ratelimitd.Valkey.{Valkey, IsValkey}
use postfix_ratelimitd.Limiter.Log.{weight_mono, recorded_between}
use postfix_ratelimitd.Limiter.Script.{check_windows}
use postfix_ratelimitd.Limiter.Script.Window.{check_windows-Passes}
use postfix_ratelimitd.Limiter.Check.{Delivery, bucket_keys}
use postfix_ratelimitd.Limiter.World.{World, start, check_step, elapse_step}
use postfix_ratelimitd.Limiter.World.Invariant.{Holds, check_cases, start-Holds, elapse-Holds}
use postfix_ratelimitd.Limiter.World.Steps.{check_step-Holds}
use postfix_ratelimitd.Limiter.World.Totals.{
  in_span, counted, in_span-le-counted, window_total-counted,
}

pub Enforces-Keeps :
    (span limit : ℕ) (plan : CheckPlan)
    → IsWellFormed plan
    → Enforces span limit plan.windows
    → Keeps plan (size_of span) span
Enforces-Keeps span limit plan shape enforced =
    let (win, fits, same, _) =
      Enforces-All span limit (Fits plan) plan.windows enforced shape.fits in
    subst (λ s. Keeps plan (size_of s) s) same (Fits-Keeps plan win fits)

module _ (V : Valkey) (laws : IsValkey V) (key_prefix user : Text) (span limit : ℕ) where
  -- The sender's buckets are as far back as the span what the log says, and in no interval as long as
  -- the span are more than `limit` recipients recorded.
  pub record IsBounded (w : World V) : Type 0 where
    pub holds : Holds V key_prefix user (size_of span) span w
    pub within : (from : ℕ) → recorded_between w.log user from (from + span) ≤ limit

  pub start-IsBounded : IsBounded (start V)
  start-IsBounded = record {
    holds = start-Holds V laws key_prefix user (size_of span) span;
    within = λ from. omega arith;
  }

  pub elapse_step-IsBounded :
      (w : World V) (seconds : ℕ) → IsBounded w → IsBounded (elapse_step V key_prefix w seconds)
  unfolding elapse_step
  elapse_step-IsBounded w seconds h = record {
    holds = elapse-Holds V laws key_prefix user (size_of span) span w h.holds seconds;
    within = h.within;
  }

  module _ (w : World V) (h : IsBounded w) (plan : CheckPlan) (shape : IsWellFormed plan)
      (count : ℕ) where
    abbrev LetsThrough : Text → Type 0
    LetsThrough sender =
        check_windows (V.time w.db) count plan.bucket_sizes
          (map (V.hgetall w.db) (bucket_keys key_prefix sender plan.bucket_sizes)) plan.windows
        ≡ some true

    abbrev BoundedWith : Text → ℕ → Type 0
    BoundedWith sender from =
        recorded_between (record { user = sender; at = V.time w.db; recipients = count } ∷ w.log)
          user from (from + span)
        ≤ limit

    -- A message that the script lets through has room in the buckets of its window,
    room_for :
        Enforces span limit plan.windows
        → LetsThrough user
        → count + counted V laws key_prefix w user span ≤ limit
    room_for enforced passed =
        let (win, (fits, (t, e, le)), same, tight) =
          Enforces-All span limit _ plan.windows enforced (
            All-both (Fits plan) _ plan.windows shape.fits
              (check_windows-Passes (V.time w.db) count _ _ _ passed)) in
        let total = window_total-counted V laws key_prefix w user plan win fits count in
        let sum = some-injective t _ (sym e ∙ total) in
        subst (λ s. count + counted V laws key_prefix w user s ≤ limit) same ground
          (arith, sum, tight, le)

    -- which cover the interval that ends with it.
    own_message :
        Enforces span limit plan.windows → LetsThrough user → (from : ℕ) → BoundedWith user from
    own_message enforced passed from =
        let room = room_for enforced passed in
        let seen = in_span-le-counted V laws key_prefix w user span h.holds in
        let inside = λ (late : V.time w.db ≤ from + span).
          weight_mono (λ e. text_eq e.user user && (ltb from e.at && leb e.at (from + span)))
            (in_span user (V.time w.db) span) w.log (λ e x. ground arith) in
        let old = h.within from in ground (arith, seen, inside, old, room)

    pub check_step-IsBounded :
        (sender : Text) (delivery : Delivery)
        → (text_eq sender user ≡ true → Enforces span limit plan.windows)
        → IsBounded (check_step V key_prefix w sender plan count delivery)
    unfolding check_step
    check_step-IsBounded sender delivery enforced = record {
      holds =
          check_step-Holds V laws key_prefix w sender plan shape count delivery user (size_of span)
            span (λ e. Enforces-Keeps span limit plan shape (enforced e)) h.holds;
      within = λ from. elim (check_cases V key_prefix sender plan count delivery w.db) [
        | inl (quiet, _) ↦ rw quiet (h.within from)
        | inr (noted, passed, _) ↦ rw noted (elim (Bool-cases (text_eq sender user)) [
          | inr apart ↦ ground (arith, apart, h.within from)
          | inl e ↦
              let own = text_eq_sound sender user e in
              subst (λ u. LetsThrough u → BoundedWith u from) (sym own)
                (λ p. own_message (enforced e) p from) passed
        ])
      ];
    }
