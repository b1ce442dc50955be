-- ===== src/Control/Status/Agreement.antt =====
-- What `compute_sasl_status` of src/control/mod.rs reports is what lua/check_and_record.lua enforces.
use postfix_ratelimitd.Base.{
  ℕ, ◌+◌, ◌-◌, ◌*◌, ◌≡◌, ◌≤◌, ◌<◌, ◌↔◌, refl, Bool, false, List, [], ◌∷◌, Option, none, some,
  is_empty, get_elem?-map, map, arith, All, All-get_elem?, Bool-cases, inl, inr,
}
use postfix_ratelimitd.Base.Text.{Text}
use postfix_ratelimitd.Config.Window.{Window}
use postfix_ratelimitd.Config.Plan.{PlannedWindow, CheckPlan, new}
use postfix_ratelimitd.Config.Plan.Shape.{Fits, IsWellFormed, new-IsWellFormed}
use postfix_ratelimitd.Valkey.{Valkey, Entries}
use postfix_ratelimitd.Limiter.Keys.{sasl_identity_kind, identity, bucket_key}
use postfix_ratelimitd.Limiter.Log.{total_of}
use postfix_ratelimitd.Limiter.Script.{run_script}
use postfix_ratelimitd.Limiter.Script.Window.{
  in_window, Passes, check_windows-Passes, Passes-check_windows, window_total_at,
}
use postfix_ratelimitd.Limiter.Check.{bucket_keys}
use postfix_ratelimitd.Control.Status.{
  WindowStatus, limited, done, to_hash_map, bucket_end, current_total, window_status,
  window_statuses, fetch, report, compute_sasl_status,
}

abbrev pub sum_of : Entries → ℕ
sum_of [] = 0
sum_of ((id, count) ∷ rest) = count + sum_of rest

-- The counts fit u32 together, and the ends of the buckets fit u64.
abbrev pub InRange : ℕ → Entries → Type 0
InRange size l = (sum_of l < 4294967296) × All (λ e. (e.0 + 1) * size < 18446744073709551616) l

total_of-le-sum_of : (f : ℕ → Bool) (l : Entries) → total_of f l ≤ sum_of l
total_of-le-sum_of f [] = omega arith
total_of-le-sum_of f ((id, c) ∷ rest) = ground (arith, total_of-le-sum_of f rest)

bucket_end-exact :
    (id size : ℕ)
    → 0 < size
    → (id + 1) * size < 18446744073709551616
    → bucket_end id size ≡ (id + 1) * size
unfolding bucket_end
bucket_end-exact id size pos fits = grind arith

current_total-eq-total_of :
    (now span size : ℕ) (l : Entries)
    → 0 < size
    → InRange size l
    → current_total (now - span) size l ≡ total_of (in_window now span size) l
unfolding current_total
current_total-eq-total_of now span size [] pos h = refl
current_total-eq-total_of now span size ((id, c) ∷ rest) pos h =
    let ih = current_total-eq-total_of now span size rest pos (omega (arith, h.0), h.1.1) in
    let end = bucket_end-exact id size pos h.1.0 in
    let less = total_of-le-sum_of (in_window now span size) rest in
    elim (Bool-cases (in_window now span size id)) [
      | inl e ↦ ground (arith, ih, end, less, e, h.0)
      | inr e ↦ ground (arith, ih, end, less, e, h.0)
    ]

to_hash_map-fits : (size : ℕ) (l : Entries) → 0 < size → InRange size l → to_hash_map l ≡ some l
unfolding to_hash_map
to_hash_map-fits size [] pos h = refl
to_hash_map-fits size ((id, c) ∷ rest) pos h =
    let ih = to_hash_map-fits size rest pos (omega (arith, h.0), h.1.1) in
    let small : id < 18446744073709551616 = grind (arith, h.1.0) in ground (arith, ih, small, h.0)

module _ (V : Valkey) (key_prefix user : Text) (d : V.Db) where
  abbrev entries_of : ℕ → Entries
  entries_of size = V.hgetall d (bucket_key key_prefix (identity sasl_identity_kind user) size)

  -- Nothing is written between the reads.
  abbrev pub quiet_reads : List ℕ → List (Option (V.Db))
  quiet_reads = map (λ size. some d)

  abbrev pub AllInRange : List ℕ → Type 0
  AllInRange = All (λ size. InRange size (entries_of size))

  abbrev buckets_of : List ℕ → List Entries
  buckets_of sizes = map (V.hgetall d) (bucket_keys key_prefix user sizes)

  fetch-quiet_reads :
      (sizes : List ℕ)
      → All (λ n. 0 < n) sizes
      → AllInRange sizes
      → fetch V (bucket_keys key_prefix user sizes) (quiet_reads sizes) ≡ some (buckets_of sizes)
  unfolding fetch
  fetch-quiet_reads [] pos h = refl
  fetch-quiet_reads (size ∷ sizes) pos h =
      let ih = fetch-quiet_reads sizes pos.1 h.1 in
      let read = to_hash_map-fits size (entries_of size) pos.0 h.0 in ground (arith, ih, read)

  module _ (count : ℕ) (plan : CheckPlan) (shape : IsWellFormed plan)
      (range : AllInRange plan.bucket_sizes) where
    abbrev HasRoomFor : WindowStatus → Type 0
    HasRoomFor s = count + s.current_total ≤ s.limit

    abbrev PassesWindow : PlannedWindow → Type 0
    PassesWindow = Passes (V.time d) count plan.bucket_sizes (buckets_of plan.bucket_sizes)

    window_status-Fits :
        (w : PlannedWindow)
        → Fits plan w
        → (s : WindowStatus) × (window_status
              (V.time d)
              plan.bucket_sizes
              (buckets_of plan.bucket_sizes)
              w
            ≡ some s)
          × (HasRoomFor s ↔ PassesWindow w)
    unfolding window_status
    window_status-Fits w f =
        let at_key =
          get_elem?-map (bucket_key key_prefix (identity sasl_identity_kind user)) plan.bucket_sizes
            w.key_index f.has_size in
        let at_buckets = get_elem?-map (V.hgetall d) _ w.key_index at_key in
        let pos =
          All-get_elem? (λ n. 0 < n) plan.bucket_sizes w.key_index shape.positive f.has_size in
        let in_range =
          All-get_elem? (λ size. InRange size (entries_of size)) plan.bucket_sizes w.key_index range
            f.has_size in
        let same =
          current_total-eq-total_of (V.time d) w.span_secs f.size (entries_of f.size) pos
            in_range in
        let total =
          window_total_at (V.time d) count plan.bucket_sizes (buckets_of plan.bucket_sizes) w f.size
            (entries_of f.size) f.has_size at_buckets in
        (
          record {
            span_secs = w.span_secs;
            limit = w.limit;
            current_total = current_total (V.time d - w.span_secs) f.size (entries_of f.size);
          },
          ground (arith, f.has_size, at_buckets),
          (
            λ room. (
              count + total_of (in_window (V.time d) w.span_secs f.size) (entries_of f.size),
              total,
              omega (arith, same, room),
            ),
            λ passes. ground (arith, passes.1, total, same),
          ),
        )

    window_statuses-Fits :
        (ws : List PlannedWindow)
        → All (Fits plan) ws
        → (ss : List WindowStatus) × (window_statuses
              (V.time d)
              plan.bucket_sizes
              (buckets_of plan.bucket_sizes)
              ws
            ≡ some ss)
          × (All HasRoomFor ss ↔ All PassesWindow ws)
    unfolding window_statuses
    window_statuses-Fits [] h = ([], refl, (λ u. tt, λ u. tt))
    window_statuses-Fits (w ∷ ws) h =
        let here = window_status-Fits w h.0 in
        let there = window_statuses-Fits ws h.1 in
        (
          here.0 ∷ there.0,
          ground (arith, here.1, there.1),
          (
            λ room. (here.2.0 room.0, there.2.0 room.1),
            λ passes. (here.2.1 passes.0, there.2.1 passes.1),
          ),
        )

  -- A message's remaining room in a window, as the status shows it.
  abbrev pub HasRoom : ℕ → WindowStatus → Type 0
  HasRoom count s = count + s.current_total ≤ s.limit

  abbrev pub enforced : ℕ → CheckPlan → Option ℕ
  enforced count plan =
      (run_script V (bucket_keys key_prefix user plan.bucket_sizes)
        (record { recipient_count = count; now_override = none; plan = plan }) d).0

  -- For a user with windows, and with nothing written between the reads, the status is a total for
  -- each window, and the script accepts a message at that moment exactly when its recipients and each
  -- total are together within the window's limit. The recorded counts of a key fit 32 bits together
  -- and the ends of its buckets 64 bits.
  pub compute_sasl_status-agrees :
      (windows : List Window) (count : ℕ)
      → is_empty (new windows).bucket_sizes ≡ false
      → AllInRange (new windows).bucket_sizes
      → (statuses : List WindowStatus) × (compute_sasl_status V key_prefix
            (new windows)
            user
            (some d)
            (quiet_reads (new windows).bucket_sizes)
          ≡ done (limited (V.time d) statuses))
        × (All (HasRoom count) statuses ↔ (enforced count (new windows) ≡ some 1))
  unfolding compute_sasl_status report run_script
  compute_sasl_status-agrees windows count full range =
      let shape = new-IsWellFormed windows in
      let plan = new windows in
      let reads = fetch-quiet_reads plan.bucket_sizes shape.positive range in
      let statuses = window_statuses-Fits count plan shape range plan.windows shape.fits in
      let sound =
        check_windows-Passes (V.time d) count plan.bucket_sizes (buckets_of plan.bucket_sizes)
          plan.windows in
      let complete =
        Passes-check_windows (V.time d) count plan.bucket_sizes (buckets_of plan.bucket_sizes)
          plan.windows in
      (
        statuses.0,
        ground (arith, full, reads, statuses.1),
        (
          λ room. ground (arith, complete (statuses.2.0 room)),
          λ h. statuses.2.1 (sound ground (arith, h)),
        ),
      )
