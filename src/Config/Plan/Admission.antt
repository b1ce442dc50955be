-- ===== src/Config/Plan/Admission.antt =====
-- A plan of src/config.rs checks what its rule's windows say: merging windows of equal duration
-- changes no verdict.
use postfix_ratelimitd.Base.{
  ℕ, ◌≤◌, ◌↔◌, ◌&&◌, ◌==◌, inl, inr, List, [], ◌∷◌, arith, All, Option-cases, Bool-cases,
}
use postfix_ratelimitd.Config.Window.{Window}
use postfix_ratelimitd.Config.Bucket.{bucket_size}
use postfix_ratelimitd.Config.Plan.{
  PlannedWindow, CheckPlan, empty_plan, position, merge_window, plan_at, push_key, add_window,
  add_windows, new,
}

-- `total s` stands for the recipients counted over the last `s` seconds.
module _ (total : ℕ → ℕ) where
  -- The total is within a planned window's limit.
  abbrev pub Admits : PlannedWindow → Type 0
  Admits w = total w.span_secs ≤ w.limit

  -- The total is within a configured window's count.
  abbrev pub AdmitsWindow : Window → Type 0
  AdmitsWindow w = total w.duration.secs ≤ w.count

  merge_window-Admits :
      (added : PlannedWindow) (ws : List PlannedWindow)
      → All Admits (merge_window added ws) ↔ (Admits added × All Admits ws)
  unfolding merge_window
  merge_window-Admits added [] = (λ h. (h.0, tt), λ h. (h.0, tt))
  merge_window-Admits added (w ∷ ws) =
      elim (Bool-cases (w.key_index == added.key_index && w.span_secs == added.span_secs)) [
        | inl same ↦ rw (same, merge_window) (λ h. ground arith, λ h. ground arith)
        | inr other ↦
            let ih = merge_window-Admits added ws in
            rw (other, merge_window)
              (λ h. ((ih.0 h.1).0, (h.0, (ih.0 h.1).1)), λ h. (h.1.0, ih.1 (h.0, h.1.1)))
      ]

  add_window-Admits :
      (plan : CheckPlan) (window : Window)
      → All Admits (add_window plan window).windows
        ↔ (AdmitsWindow window × All Admits plan.windows)
  unfolding add_window plan_at push_key
  add_window-Admits plan window =
      elim (Option-cases (position (bucket_size window.duration) plan.bucket_sizes)) [
        | inl e ↦ rw (e, add_window) (merge_window-Admits _ plan.windows)
        | inr (i, e) ↦ rw (e, add_window) (merge_window-Admits _ plan.windows)
      ]

  add_windows-Admits :
      (plan : CheckPlan) (windows : List Window)
      → All Admits (add_windows plan windows).windows
        ↔ (All AdmitsWindow windows × All Admits plan.windows)
  unfolding add_windows
  add_windows-Admits plan [] = (λ h. (tt, h), λ h. h.1)
  add_windows-Admits plan (w ∷ ws) =
      let ih = add_windows-Admits (add_window plan w) ws in
      let here = add_window-Admits plan w in
      (
        λ h. let r = ih.0 h in let s = here.0 r.1 in ((s.0, r.0), s.1),
        λ h. ih.1 (h.0.1, here.1 (h.0.0, h.1)),
      )

  -- Whatever the totals over the spans are, they are within every limit of the plan exactly when
  -- they are within the count of every window that it was built from.
  pub new-Admits :
      (windows : List Window) → All Admits (new windows).windows ↔ All AdmitsWindow windows
  unfolding new
  new-Admits windows =
      let both = add_windows-Admits empty_plan windows in (λ h. (both.0 h).0, λ h. both.1 (h, tt))
