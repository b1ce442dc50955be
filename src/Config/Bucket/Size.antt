-- ===== src/Config/Bucket/Size.antt =====
-- What `bucket_size` of src/config.rs returns.
use native.Mathlib.Nat.{pow-suc, pow-le-pow_right, le-div_iff_mul-le, mul_assoc, mul_comm}
use postfix_ratelimitd.Base.{
  ℕ, zero, suc, ◌*◌, ◌^◌, ◌≤◌, ◌<◌, ◌≡◌, refl, ◌⊎◌, inl, inr, true, false, arith, dec_lt,
  Bool-cases,
}
use postfix_ratelimitd.Config.Window.{Duration, from_secs}
use postfix_ratelimitd.Config.Bucket.{can_double, double, bucket_size}

-- Nanoseconds do not matter.
pub bucket_size-from_secs : (d : Duration) → bucket_size (from_secs d.secs) ≡ bucket_size d
unfolding bucket_size
bucket_size-from_secs d = refl

abbrev pub IsPowerOfTwo : ℕ → Type 0
IsPowerOfTwo n = (k : ℕ) × (n ≡ 2 ^ k)

module _ (total secs : ℕ) (positive : 0 < secs) where
  can_double_fits : can_double total secs ≡ true → (secs * 2 ≤ 86400) × (50 * (secs * 2) ≤ total)
  unfolding can_double
  can_double_fits h =
      ground (arith, (le-div_iff_mul-le {k = secs * 2} {x = 50} {y = total} (omega arith)).0)

  can_double_complete : can_double total secs ≡ false → secs * 2 ≤ 86400 → total < 50 * (secs * 2)
  unfolding can_double
  can_double_complete h q =
      ground (arith, (le-div_iff_mul-le {k = secs * 2} {x = 50} {y = total} (omega arith)).1)

double-IsPowerOfTwo :
    (fuel total secs : ℕ) → IsPowerOfTwo secs → IsPowerOfTwo (double fuel total secs)
unfolding double
double-IsPowerOfTwo zero total secs p = p
double-IsPowerOfTwo (suc fuel) total secs (k, e) = elim (Bool-cases (can_double total secs)) [
  | inl t ↦
      rw (t, double) (double-IsPowerOfTwo fuel total (secs * 2) (suc k, rw pow-suc (rw e refl)))
  | inr f ↦ rw (f, double) (k, e)
]

abbrev Admissible : ℕ → ℕ → Type 0
Admissible total secs = (0 < secs) × (secs ≤ 86400) × ((secs ≡ 1) ⊎ (50 * secs ≤ total))

double-Admissible :
    (fuel total secs : ℕ) → Admissible total secs → Admissible total (double fuel total secs)
unfolding double
double-Admissible zero total secs h = h
double-Admissible (suc fuel) total secs h = elim (Bool-cases (can_double total secs)) [
  | inl t ↦
      let fits = can_double_fits total secs h.0 t in
      rw (t, double) (double-Admissible fuel total (secs * 2) (omega arith, fits.0, inr fits.1))
  | inr f ↦ rw (f, double) h
]

-- With enough fuel the loop ends by its own test.
double_ends :
    (fuel total secs : ℕ)
    → 86400 < secs * 2 ^ fuel
    → can_double total (double fuel total secs) ≡ false
unfolding double can_double
double_ends zero total secs h = ground arith
double_ends (suc fuel) total secs h = elim (Bool-cases (can_double total secs)) [
  | inl t ↦
      rw (t, double)
        (double_ends fuel total (secs * 2)
          (rw mul_assoc (rw (mul_comm 2 (2 ^ fuel), ← pow-suc 2 fuel) h)))
  | inr f ↦ rw (f, double) f
]

ended : (d : Duration) → can_double d.secs (bucket_size d) ≡ false
unfolding bucket_size
ended d = double_ends 17 d.secs 1 (omega arith)

-- No power of two is strictly between one and its double.
power_gap : (j k : ℕ) → 2 ^ k * 2 ≤ 2 ^ j ⊎ (2 ^ j ≤ 2 ^ k)
power_gap j k = elim (dec_lt k j) [
  | yes above ↦ inl (rw (← pow-suc 2 k) (pow-le-pow_right (omega arith) above))
  | no below ↦ inr (pow-le-pow_right (omega arith) (omega arith))
]

-- For a window of any duration, the size is a power of two, at least 1 and at most 86400, and it
-- leaves at least 50 buckets in the window unless it is 1.
pub bucket_size_bounds :
    (d : Duration)
    → IsPowerOfTwo (bucket_size d)
      × (0 < bucket_size d)
      × (bucket_size d ≤ 86400)
      × ((bucket_size d ≡ 1) ⊎ (50 * bucket_size d ≤ d.secs))
unfolding bucket_size
bucket_size_bounds d =
    let fits = double-Admissible 17 d.secs 1 (omega arith, omega arith, inl refl) in
    (double-IsPowerOfTwo 17 d.secs 1 (0, refl), fits.0, fits.1, fits.2)

-- No power of two up to 86400 that leaves at least 50 buckets in the window is larger: the loop
-- does not stop early.
pub bucket_size-greatest :
    (d : Duration) (j : ℕ) → 2 ^ j ≤ 86400 → 50 * 2 ^ j ≤ d.secs → 2 ^ j ≤ bucket_size d
bucket_size-greatest d j small enough =
    let (power, positive, _, _) = bucket_size_bounds d in
    let (k, e) = power in
    elim (power_gap j k) [
      | inl twice ↦
          let up : bucket_size d * 2 ≤ 2 ^ j = rw e twice in
          let over = can_double_complete d.secs (bucket_size d) positive (ended d) in
          omega (arith, over (omega arith))
      | inr le ↦ rw e le
    ]
