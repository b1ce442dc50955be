-- ===== src/Config/Plan/Spans.antt =====
-- The spans that a plan of src/config.rs enforces, and how far back it keeps buckets for them.
use postfix_ratelimitd.Base.{
  is_empty, false, some, get_elem?, ℕ, ◌+◌, ◌≤◌, ◌≡◌, refl, ◌⊎◌, inl, inr, List, [], ◌∷◌, arith,
  All, if◌then◌else◌, ◌==◌, dec_le,
}
use postfix_ratelimitd.Config.Window.{Window, from_secs}
use postfix_ratelimitd.Config.Bucket.{bucket_size}
use postfix_ratelimitd.Config.Plan.{PlannedWindow, CheckPlan, new}
use postfix_ratelimitd.Config.Plan.Shape.{HasRow, Fits}
use postfix_ratelimitd.Config.Plan.Admission.{Admits, AdmitsWindow, new-Admits}

abbrev pub size_of : ℕ → ℕ
size_of span = bucket_size (from_secs span)

-- The plan has a key for the bucket size that is kept long enough.
pub record Keeps (plan : CheckPlan) (size span : ℕ) : Type 0 where
  pub kept : ℕ
  pub row : HasRow plan size kept
  pub long_enough : span ≤ kept

pub Fits-Keeps :
    (plan : CheckPlan) (w : PlannedWindow)
    → Fits plan w
    → Keeps plan (size_of w.span_secs) w.span_secs
Fits-Keeps plan w f = rw (← f.of_span) (record {
  kept = f.kept;
  row = record { index = w.key_index; size_at = f.has_size; kept_at = f.has_retention };
  long_enough = f.covers;
})

-- Some window of the plan is as long as `span` and no less strict than `limit`.
abbrev pub Enforces : ℕ → ℕ → List PlannedWindow → Type 0
Enforces span limit [] = ⊥
Enforces span limit (w ∷ ws) = ((w.span_secs ≡ span) × (w.limit ≤ limit)) ⊎ Enforces span limit ws

-- Some configured window is.
abbrev pub Configures : ℕ → ℕ → List Window → Type 0
Configures span limit [] = ⊥
Configures span limit (w ∷ ws) =
    ((w.duration.secs ≡ span) × (w.count ≤ limit)) ⊎ Configures span limit ws

-- A total that is only reached over `span`.
abbrev only_over : ℕ → ℕ → ℕ → ℕ
only_over span limit s = if s == span then limit + 1 else 0

Admits-or_enforces :
    (span limit : ℕ) (ws : List PlannedWindow)
    → All (Admits (only_over span limit)) ws ⊎ Enforces span limit ws
Admits-or_enforces span limit [] = inl tt
Admits-or_enforces span limit (w ∷ ws) = elim (Admits-or_enforces span limit ws) [
  | inr later ↦ inr (inr later)
  | inl rest ↦ elim (dec_le (only_over span limit w.span_secs) w.limit) [
    | yes fits ↦ inl (fits, rest)
    | no strict ↦ inr (inl ground (arith, strict))
  ]
]

configured_strictly :
    (span limit : ℕ) (ws : List Window)
    → Configures span limit ws
    → All (AdmitsWindow (only_over span limit)) ws
    → ⊥
configured_strictly span limit [] x h = elim x [ ]
configured_strictly span limit (w ∷ ws) (inl here) h = ground (arith, here.0, here.1, h.0)
configured_strictly span limit (w ∷ ws) (inr later) h = configured_strictly span limit ws later h.1

-- What is configured is enforced.
pub new-Enforces :
    (span limit : ℕ) (windows : List Window)
    → Configures span limit windows
    → Enforces span limit (new windows).windows
new-Enforces span limit windows configured =
    elim (Admits-or_enforces span limit (new windows).windows) [
      | inr found ↦ found
      | inl all ↦ absurd (
          configured_strictly span limit windows configured
            ((new-Admits (only_over span limit) windows).0 all))
    ]

-- What holds of every window of a plan holds of one that enforces the span.
pub Enforces-All :
    (span limit : ℕ) (P : PlannedWindow → Type 0) (ws : List PlannedWindow)
    → Enforces span limit ws
    → All P ws
    → (w : PlannedWindow) × P w × (w.span_secs ≡ span) × (w.limit ≤ limit)
Enforces-All span limit P [] x h = elim x [ ]
Enforces-All span limit P (w ∷ ws) (inl here) h = (w, h.0, here.0, here.1)
Enforces-All span limit P (w ∷ ws) (inr later) h = Enforces-All span limit P ws later h.1

-- What is within every limit that is configured is within every configured window.
pub All-Configures :
    (total : ℕ → ℕ) (windows : List Window)
    → ((span limit : ℕ) → Configures span limit windows → total span ≤ limit)
    → All (AdmitsWindow total) windows
All-Configures total [] h = tt
All-Configures total (w ∷ ws) h = (
  h w.duration.secs w.count (inl (refl, omega arith)),
  All-Configures total ws (λ span limit c. h span limit (inr c)),
)

some_element : (xs : List ℕ) (i x : ℕ) → get_elem? xs i ≡ some x → is_empty xs ≡ false
some_element [] i x h = cc
some_element (y ∷ ys) i x h = refl

-- A plan that enforces a limit has keys.
pub Enforces-is_empty :
    (span limit : ℕ) (plan : CheckPlan)
    → All (Fits plan) plan.windows
    → Enforces span limit plan.windows
    → is_empty plan.bucket_sizes ≡ false
Enforces-is_empty span limit plan fits enforced =
    let (win, f, _, _) = Enforces-All span limit (Fits plan) plan.windows enforced fits in
    some_element plan.bucket_sizes win.key_index f.size f.has_size
