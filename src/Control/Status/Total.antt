-- ===== src/Control/Status/Total.antt =====
-- `compute_sasl_status` of src/control/mod.rs never indexes out of range.
use postfix_ratelimitd.Base.{
  ℕ, zero, suc, ◌≡◌, ◌≢◌, refl, List, [], ◌∷◌, Option, none, some, is_empty, get_elem?, map, arith,
  All, Bool-cases, Option-cases, inl, inr,
}
use postfix_ratelimitd.Base.Text.{Text}
use postfix_ratelimitd.Config.Window.{Window}
use postfix_ratelimitd.Config.Plan.{PlannedWindow, CheckPlan, new}
use postfix_ratelimitd.Config.Plan.Shape.{Fits, new-IsWellFormed}
use postfix_ratelimitd.Valkey.{Valkey, Entries}
use postfix_ratelimitd.Limiter.Keys.{sasl_identity_kind, identity, bucket_key}
use postfix_ratelimitd.Limiter.Check.{bucket_keys}
use postfix_ratelimitd.Control.Status.{
  WindowStatus, panicked, to_hash_map, window_status, window_statuses, fetch, report,
  compute_sasl_status,
}

module _ (V : Valkey) where
  at_cons :
      (s : ℕ) (sizes : List ℕ) (l : Entries) (rest buckets : List Entries) (size i : ℕ)
      → buckets ≡ l ∷ rest
      → get_elem? (s ∷ sizes) i ≡ some size
      → ((j : ℕ) → get_elem? sizes j ≡ some size → (m : Entries) × (get_elem? rest j ≡ some m))
      → (m : Entries) × (get_elem? buckets i ≡ some m)
  at_cons s sizes l rest buckets size zero b e later = (l, rw b refl)
  at_cons s sizes l rest buckets size (suc i) b e later = let m = later i e in (m.0, rw b m.1)

  -- Where there is a key there are its buckets.
  fetch_at :
      (key_of : ℕ → Text) (sizes : List ℕ) (reads : List (Option (V.Db))) (buckets : List Entries)
      (i size : ℕ)
      → fetch V (map key_of sizes) reads ≡ some buckets
      → get_elem? sizes i ≡ some size
      → (l : Entries) × (get_elem? buckets i ≡ some l)
  unfolding fetch
  fetch_at key_of [] reads buckets i size h e = cc
  fetch_at key_of (s ∷ sizes) [] buckets i size h e = cc
  fetch_at key_of (s ∷ sizes) (none ∷ reads) buckets i size h e = cc
  fetch_at key_of (s ∷ sizes) (some d ∷ reads) buckets i size h e =
      elim (Option-cases (to_hash_map (V.hgetall d (key_of s)))) [
        | inl f ↦ absurd ground (arith, f)
        | inr (l, f) ↦ elim (Option-cases (fetch V (map key_of sizes) reads)) [
          | inl g ↦ absurd ground (arith, f, g)
          | inr (rest, g) ↦
              at_cons s sizes l rest buckets size i ground (arith, f, g) e
                (λ j. fetch_at key_of sizes reads rest j size g)
        ]
      ]

  window_statuses-some :
      (now : ℕ) (plan : CheckPlan) (buckets : List Entries)
      → ((i size : ℕ)
          → get_elem? plan.bucket_sizes i ≡ some size
          → (l : Entries) × (get_elem? buckets i ≡ some l))
      → (ws : List PlannedWindow) → All (Fits plan) ws
      → (ss : List WindowStatus) × (window_statuses now plan.bucket_sizes buckets ws ≡ some ss)
  unfolding window_statuses window_status
  window_statuses-some now plan buckets at [] h = ([], refl)
  window_statuses-some now plan buckets at (w ∷ ws) h =
      let there = window_statuses-some now plan buckets at ws h.1 in
      let l = at w.key_index h.0.size h.0.has_size in
      elim (Option-cases (window_status now plan.bucket_sizes buckets w)) [
        | inl e ↦ absurd ground (arith, e, l.1, h.0.has_size)
        | inr (s, e) ↦ (s ∷ there.0, ground (arith, e, there.1))
      ]

  -- For the plan of any windows, whatever the reads deliver or lose and whatever is written between
  -- them, the status is a reply or an error: no window indexes out of range.
  pub compute_sasl_status-returns :
      (key_prefix user : Text) (windows : List Window) (at_time : Option (V.Db))
      (reads : List (Option (V.Db)))
      → compute_sasl_status V key_prefix (new windows) user at_time reads ≢ panicked
  unfolding compute_sasl_status report
  compute_sasl_status-returns key_prefix user windows at_time reads p =
      let plan = new windows in
      elim (Bool-cases (is_empty plan.bucket_sizes)) [
        | inl e ↦ ground (arith, e, p)
        | inr e ↦ elim (Option-cases at_time) [
          | inl f ↦ ground (arith, e, f, p)
          | inr (d, f) ↦
              elim (Option-cases (fetch V (bucket_keys key_prefix user plan.bucket_sizes) reads)) [
                | inl g ↦ ground (arith, e, f, g, p)
                | inr (buckets, g) ↦
                    let statuses =
                      window_statuses-some (V.time d) plan buckets
                        (λ i size.
                          fetch_at (bucket_key key_prefix (identity sasl_identity_kind user))
                            plan.bucket_sizes reads buckets i size g)
                        plan.windows (new-IsWellFormed windows).fits in
                    ground (arith, e, f, g, statuses.1, p)
              ]
        ]
      ]
