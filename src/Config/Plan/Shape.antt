-- ===== src/Config/Plan/Shape.antt =====
-- The arrays of a plan that `CheckPlan::new` of src/config.rs builds.
use postfix_ratelimitd.Base.{
  ℕ, zero, suc, ◌≤◌, ◌<◌, ◌≡◌, ◌≢◌, refl, sym, inl, inr, List, [], ◌∷◌, ◌++◌, none, some, arith,
  max, min, ap, ◌∙◌, Option-cases, length, length-append, get_elem?, get_elem?-append_left,
  get_elem?-append_end, All, All-append, All-weaken, Distinct,
}
use postfix_ratelimitd.Config.Window.{Window, from_secs}
use postfix_ratelimitd.Config.Bucket.{bucket_size}
use postfix_ratelimitd.Config.Bucket.Size.{bucket_size_bounds, bucket_size-from_secs}
use postfix_ratelimitd.Config.Plan.{
  PlannedWindow, CheckPlan, empty_plan, position, raise_at, merge_window, plan_at, push_key,
  add_window, add_windows, new,
}

-- A planned window has a key whose bucket size is that of its span and whose retention covers it.
pub record Fits (plan : CheckPlan) (w : PlannedWindow) : Type 0 where
  pub size : ℕ
  pub kept : ℕ
  pub has_size : get_elem? plan.bucket_sizes w.key_index ≡ some size
  pub of_span : size ≡ bucket_size (from_secs w.span_secs)
  pub has_retention : get_elem? plan.retention_secs w.key_index ≡ some kept
  pub covers : w.span_secs ≤ kept

-- A key of a plan: its bucket size and its retention.
pub record HasRow (plan : CheckPlan) (size kept : ℕ) : Type 0 where
  pub index : ℕ
  pub size_at : get_elem? plan.bucket_sizes index ≡ some size
  pub kept_at : get_elem? plan.retention_secs index ≡ some kept

-- The arrays are parallel, no bucket size has two keys, every size is positive, every window fits.
pub record IsWellFormed (plan : CheckPlan) : Type 0 where
  pub parallel : length plan.retention_secs ≡ length plan.bucket_sizes
  pub distinct : Distinct plan.bucket_sizes
  pub positive : All (λ n. 0 < n) plan.bucket_sizes
  pub fits : All (Fits plan) plan.windows

position-some : (n : ℕ) (xs : List ℕ) (i : ℕ) → position n xs ≡ some i → get_elem? xs i ≡ some n
unfolding position
position-some n [] i h = cc
position-some n (x ∷ xs) zero h = ground arith
position-some n (x ∷ xs) (suc i) h = ground (arith, position-some n xs i)

position-none : (n : ℕ) (xs : List ℕ) → position n xs ≡ none → All (λ y. y ≢ n) xs
unfolding position
position-none n [] h = tt
position-none n (x ∷ xs) h = ground (arith, position-none n xs)

Distinct-append :
    (xs : List ℕ) (n : ℕ) → Distinct xs → All (λ y. y ≢ n) xs → Distinct (xs ++ n ∷ [])
Distinct-append [] n d h = (tt, tt)
Distinct-append (x ∷ xs) n d h =
    (All-append (λ y. x ≢ y) xs (n ∷ []) d.0 (h.0, tt), Distinct-append xs n d.1 h.1)

length-raise_at : (xs : List ℕ) (i span : ℕ) → length (raise_at xs i span) ≡ length xs
unfolding raise_at
length-raise_at [] i span = refl
length-raise_at (x ∷ xs) zero span = refl
length-raise_at (x ∷ xs) (suc i) span = ap suc (length-raise_at xs i span)

-- Retention only grows, and at its own key it covers the span.
raise_at-grows :
    (xs : List ℕ) (i span j r : ℕ)
    → get_elem? xs j ≡ some r
    → (s : ℕ) × (get_elem? (raise_at xs i span) j ≡ some s) × (r ≤ s)
unfolding raise_at
raise_at-grows [] i span j r h = cc
raise_at-grows (x ∷ xs) zero span zero r h = (max x span, refl, ground arith)
raise_at-grows (x ∷ xs) zero span (suc j) r h = (r, h, omega arith)
raise_at-grows (x ∷ xs) (suc i) span zero r h = (r, h, omega arith)
raise_at-grows (x ∷ xs) (suc i) span (suc j) r h = raise_at-grows xs i span j r h

raise_at-covers :
    (xs : List ℕ) (i span : ℕ)
    → i < length xs
    → (s : ℕ) × (get_elem? (raise_at xs i span) i ≡ some s) × (span ≤ s)
unfolding raise_at
raise_at-covers [] i span h = elim h [ ]
raise_at-covers (x ∷ xs) zero span h = (max x span, refl, omega arith)
raise_at-covers (x ∷ xs) (suc i) span h = raise_at-covers xs i span (omega arith)

get_elem?-lt : (xs : List ℕ) (i : ℕ) {x : ℕ} → get_elem? xs i ≡ some x → i < length xs
get_elem?-lt [] i h = cc
get_elem?-lt (x ∷ xs) zero h = omega arith
get_elem?-lt (x ∷ xs) (suc i) h = omega (arith, get_elem?-lt xs i h)

module _ (P : PlannedWindow → Type 0)
    (keeps : (w : PlannedWindow) (n : ℕ) → P w → P (record w { limit = n })) where
  merge_window-All :
      (added : PlannedWindow) (ws : List PlannedWindow)
      → P added
      → All P ws
      → All P (merge_window added ws)
  unfolding merge_window
  merge_window-All added [] p h = (p, tt)
  merge_window-All added (w ∷ ws) p h =
      ground (arith, merge_window-All added ws p h.1, keeps w (min w.limit added.limit) h.0)

-- Later keys, and longer retention, leave a window fitting.
Fits-grow :
    (p q : CheckPlan) (w : PlannedWindow)
    → ((i x : ℕ) → get_elem? p.bucket_sizes i ≡ some x → get_elem? q.bucket_sizes i ≡ some x)
    → ((i r : ℕ)
        → get_elem? p.retention_secs i ≡ some r
        → (s : ℕ) × (get_elem? q.retention_secs i ≡ some s) × (r ≤ s))
    → Fits p w
    → Fits q w
Fits-grow p q w sizes kept f =
    let (s, e, le) = kept w.key_index f.kept f.has_retention in
    record {
      size = f.size;
      kept = s;
      has_size = sizes w.key_index f.size f.has_size;
      of_span = f.of_span;
      has_retention = e;
      covers = omega (arith, f.covers);
    }

planned-Fits :
    (i : ℕ) (plan : CheckPlan) (window : Window)
    → get_elem? plan.bucket_sizes i ≡ some (bucket_size window.duration)
    → IsWellFormed plan
    → Fits
        (plan_at i plan window)
        (record { key_index = i; span_secs = window.duration.secs; limit = window.count })
unfolding plan_at
planned-Fits i plan window key v =
    let inside = get_elem?-lt plan.bucket_sizes i key in
    let (s, e, le) =
      raise_at-covers plan.retention_secs i window.duration.secs (omega (arith, v.parallel)) in
    record {
      size = bucket_size window.duration;
      kept = s;
      has_size = key;
      of_span = sym (bucket_size-from_secs window.duration);
      has_retention = e;
      covers = le;
    }

plan_at-IsWellFormed :
    (i : ℕ) (plan : CheckPlan) (window : Window)
    → get_elem? plan.bucket_sizes i ≡ some (bucket_size window.duration)
    → IsWellFormed plan
    → IsWellFormed (plan_at i plan window)
unfolding plan_at
plan_at-IsWellFormed i plan window key v = record {
  parallel = length-raise_at plan.retention_secs i window.duration.secs ∙ v.parallel;
  distinct = v.distinct;
  positive = v.positive;
  fits =
      merge_window-All (Fits (plan_at i plan window))
        (λ w n f. record {
          size = f.size;
          kept = f.kept;
          has_size = f.has_size;
          of_span = f.of_span;
          has_retention = f.has_retention;
          covers = f.covers;
        })
        _ plan.windows (planned-Fits i plan window key v)
        (All-weaken (Fits plan) (Fits (plan_at i plan window)) plan.windows
          (λ w.
            Fits-grow plan (plan_at i plan window) w (λ j x e. e)
              (raise_at-grows plan.retention_secs i window.duration.secs))
          v.fits);
}

push_key-IsWellFormed :
    (plan : CheckPlan) (size : ℕ)
    → 0 < size
    → position size plan.bucket_sizes ≡ none
    → IsWellFormed plan
    → IsWellFormed (push_key plan size)
unfolding push_key
push_key-IsWellFormed plan size pos absent v = record {
  parallel = omega (
    arith,
    v.parallel,
    length-append plan.retention_secs (0 ∷ []),
    length-append plan.bucket_sizes (size ∷ []),
  );
  distinct =
      Distinct-append plan.bucket_sizes size v.distinct
        (position-none size plan.bucket_sizes absent);
  positive = All-append (λ n. 0 < n) plan.bucket_sizes (size ∷ []) v.positive (pos, tt);
  fits =
      All-weaken (Fits plan) (Fits (push_key plan size)) plan.windows
        (λ w.
          Fits-grow plan (push_key plan size) w
            (λ j x e.
              get_elem?-append_left plan.bucket_sizes (size ∷ []) j
                (get_elem?-lt plan.bucket_sizes j e)
              ∙ e)
            (λ j r e. (
              r,
              get_elem?-append_left plan.retention_secs (0 ∷ []) j
                    (get_elem?-lt plan.retention_secs j e)
                  ∙ e,
              omega arith,
            )))
        v.fits;
}

add_window-IsWellFormed :
    (plan : CheckPlan) (window : Window) → IsWellFormed plan → IsWellFormed (add_window plan window)
unfolding add_window
add_window-IsWellFormed plan window v =
    elim (Option-cases (position (bucket_size window.duration) plan.bucket_sizes)) [
      | inl e ↦
          rw (e, add_window)
            (plan_at-IsWellFormed (length plan.bucket_sizes)
              (push_key plan (bucket_size window.duration)) window
              (unfold push_key in
                get_elem?-append_end plan.bucket_sizes (bucket_size window.duration))
              (push_key-IsWellFormed plan _ (bucket_size_bounds window.duration).1 e v))
      | inr (i, e) ↦
          rw (e, add_window)
            (plan_at-IsWellFormed i plan window (position-some _ plan.bucket_sizes i e) v)
    ]

add_windows-IsWellFormed :
    (plan : CheckPlan) (windows : List Window)
    → IsWellFormed plan
    → IsWellFormed (add_windows plan windows)
unfolding add_windows
add_windows-IsWellFormed plan [] v = v
add_windows-IsWellFormed plan (w ∷ ws) v =
    add_windows-IsWellFormed (add_window plan w) ws (add_window-IsWellFormed plan w v)

-- The plan of any list of windows is well formed: its arrays are parallel, its bucket sizes are
-- positive and distinct, and each planned window's `key_index` is in range, names the bucket size
-- of its span, and names a retention that is at least its span.
pub new-IsWellFormed : (windows : List Window) → IsWellFormed (new windows)
unfolding new
new-IsWellFormed windows =
    add_windows-IsWellFormed empty_plan windows
      (record { parallel = refl; distinct = tt; positive = tt; fits = tt })
