-- ===== src/Limiter/Script/Window.antt =====
-- The counting of lua/check_and_record.lua, in terms of sums over the entries.
use postfix_ratelimitd.Base.{
  ℕ, ◌+◌, ◌*◌, ◌≤◌, ◌≡◌, refl, Bool, true, false, List, [], ◌∷◌, some, ltb, arith, get_elem?, sub_ℕ,
  exceeds-sub_ℕ, All, Option-cases, Bool-cases, inl, inr, if◌then◌else◌, exceeds, and_then,
}
use postfix_ratelimitd.Config.Plan.{PlannedWindow}
use postfix_ratelimitd.Valkey.{Entries}
use postfix_ratelimitd.Limiter.Log.{total_of}
use postfix_ratelimitd.Limiter.Script.{add_counted, window_total, check_windows}

-- The bucket `id` has not ended before the window of `span` seconds.
abbrev pub in_window : ℕ → ℕ → ℕ → ℕ → Bool
in_window now span size id = ltb now ((id + 1) * size + span)

pub add_counted-eq-total_of :
    (now span size total : ℕ) (l : Entries)
    → add_counted (sub_ℕ now span) size total l ≡ total + total_of (in_window now span size) l
unfolding add_counted
add_counted-eq-total_of now span size total [] = omega arith
add_counted-eq-total_of now span size total ((id, c) ∷ rest) =
    let flag = exceeds-sub_ℕ ((id + 1) * size) now span in
    elim (Bool-cases (exceeds ((id + 1) * size) (sub_ℕ now span))) [
      | inl e ↦
          rw (e, add_counted)
            (ground (arith, e, flag, add_counted-eq-total_of now span size (total + c) rest))
      | inr e ↦
          rw (e, add_counted)
            (ground (arith, e, flag, add_counted-eq-total_of now span size total rest))
    ]

module _ (now count : ℕ) (sizes : List ℕ) (buckets : List Entries) where
  -- The window's total is computed, and is within its limit.
  abbrev pub Passes : PlannedWindow → Type 0
  Passes w = (t : ℕ) × (window_total now count sizes buckets w ≡ some t) × (t ≤ w.limit)

  abbrev pub Computes : PlannedWindow → Type 0
  Computes w = (t : ℕ) × (window_total now count sizes buckets w ≡ some t)

  pub check_windows-Passes :
      (ws : List PlannedWindow)
      → check_windows now count sizes buckets ws ≡ some true
      → All Passes ws
  unfolding check_windows
  check_windows-Passes [] h = tt
  check_windows-Passes (w ∷ ws) h = elim (Option-cases (window_total now count sizes buckets w)) [
    | inl e ↦ ground arith
    | inr (t, e) ↦ ((t, e, ground arith), check_windows-Passes ws (ground arith))
  ]

  pub Passes-check_windows :
      (ws : List PlannedWindow)
      → All Passes ws
      → check_windows now count sizes buckets ws ≡ some true
  unfolding check_windows
  Passes-check_windows [] h = refl
  Passes-check_windows (w ∷ ws) ((t, e, le), rest) = ground (arith, Passes-check_windows ws rest)

  -- When every total is computed, there is a verdict.
  pub check_windows_verdict :
      (ws : List PlannedWindow)
      → All Computes ws
      → (verdict : Bool) × (check_windows now count sizes buckets ws ≡ some verdict)
  unfolding check_windows
  check_windows_verdict [] h = (true, refl)
  check_windows_verdict (w ∷ ws) ((t, e), rest) =
      let (v, ih) = check_windows_verdict ws rest in
      (if ltb w.limit t then false else v, ground arith)

  pub window_total_at :
      (w : PlannedWindow) (size : ℕ) (l : Entries)
      → get_elem? sizes w.key_index ≡ some size
      → get_elem? buckets w.key_index ≡ some l
      → window_total now count sizes buckets w
        ≡ some (count + total_of (in_window now w.span_secs size) l)
  unfolding window_total
  window_total_at w size l hs hb =
      rw (hs, and_then)
        (rw (hb, and_then) (rw (add_counted-eq-total_of now w.span_secs size count l)))
