-- ===== src/UnitTests/Plans.antt =====
-- src/config.rs, `tests`: the bucket sizes, and plans whose windows meet.
use postfix_ratelimitd.Base.{
  ℕ, ◌≡◌, suc, zero, ◌+◌, ◌-◌, ◌≤◌, arith, inl, inr, refl, Bool, true, ◌&&◌, List, [], ◌∷◌, ◌==◌,
  ◌*◌, length, leb,
}
use postfix_ratelimitd.Base.Text.{codes, text_eq}
use postfix_ratelimitd.Config.Window.{
  bucket_target_count, from_secs, from_mins, from_hours, min_window_duration, max_window_duration,
  min_bucket_size,
}
use postfix_ratelimitd.Config.Bucket.{bucket_size}
use postfix_ratelimitd.Config.Bucket.Size.{bucket_size_bounds}
use postfix_ratelimitd.Config.Plan.{PlannedWindow}
use postfix_ratelimitd.UnitTests.Settings.{
  load_config, window, default_config, is_config, first_limit_is, plan_of, program,
}

abbrev numbers_eq : List ℕ → List ℕ → Bool
numbers_eq = text_eq

abbrev spans : List PlannedWindow → List ℕ
spans [] = []
spans (w ∷ ws) = w.span_secs ∷ spans ws

abbrev bucket_size_hits_target_count_at_min_window_duration : Bool
bucket_size_hits_target_count_at_min_window_duration =
    bucket_size min_window_duration == min_bucket_size.secs

abbrev bucket_size_at_max_window_duration_does_not_yet_reach_the_clamp : Bool
bucket_size_at_max_window_duration_does_not_yet_reach_the_clamp =
    bucket_size max_window_duration == 32768

abbrev shared_bucket_size_retention_is_the_longer_windows_span : Bool
shared_bucket_size_retention_is_the_longer_windows_span =
    (bucket_size (from_hours 1) == bucket_size (from_mins 70))
    && is_config
        (λ config.
          let plan = plan_of config (codes "anyone") in
          numbers_eq plan.bucket_sizes (bucket_size (from_hours 1) ∷ [])
          && numbers_eq (spans plan.windows) (3600 ∷ 4200 ∷ [])
          && numbers_eq plan.retention_secs (4200 ∷ []))
        (load_config (default_config (window 1 (from_secs 3600) ∷ window 1 (from_secs 4200) ∷ [])))

abbrev windows_with_identical_span_keep_only_the_stricter_limit : Bool
windows_with_identical_span_keep_only_the_stricter_limit =
    is_config
      (λ config.
        (length (plan_of config (codes "anyone")).windows == 1)
        && first_limit_is 20 (codes "anyone") config)
      (load_config (default_config (window 100 (from_hours 1) ∷ window 20 (from_hours 1) ∷ [])))

all_pass :
    (bucket_size_hits_target_count_at_min_window_duration ≡ true)
    × (bucket_size_at_max_window_duration_does_not_yet_reach_the_clamp ≡ true)
    × (shared_bucket_size_retention_is_the_longer_windows_span ≡ true)
    × (windows_with_identical_span_keep_only_the_stricter_limit ≡ true)
unfolding program
all_pass = (refl, refl, refl, refl)

-- The loop of `bucket_size_never_exceeds_the_target_fraction_of_duration`: so many seconds from one on.
fractions_from : ℕ → ℕ → Bool
fractions_from zero secs = true
fractions_from (suc more) secs =
    leb (bucket_size (from_secs secs) * bucket_target_count) secs && fractions_from more (secs + 1)

fractions_from-true : (more secs : ℕ) → 60 ≤ secs → fractions_from more secs ≡ true
unfolding fractions_from
fractions_from-true zero secs long = refl
fractions_from-true (suc more) secs long =
    let (power, positive, below, kept) = bucket_size_bounds (from_secs secs) in
    let later = fractions_from-true more (secs + 1) (omega (arith, long)) in
    elim kept [
      | inl least ↦ ground (arith, least, long, later)
      | inr fits ↦ ground (arith, fits, later)
    ]

abbrev bucket_size_never_exceeds_the_target_fraction_of_duration : Bool
bucket_size_never_exceeds_the_target_fraction_of_duration =
    fractions_from (max_window_duration.secs - min_window_duration.secs + 1)
      min_window_duration.secs

-- By the lemma, since the loop takes millions of rounds.
never_exceeds : bucket_size_never_exceeds_the_target_fraction_of_duration ≡ true
never_exceeds = fractions_from-true 2678341 60 (omega arith)
