-- ===== src/Limiter/World/Invariant.antt =====
-- The buckets of src/limiter.rs's keys are the log's sums, as far back as they are kept.
use native.Mathlib.Nat.{div-mul-le_self}
use postfix_ratelimitd.Base.{
  ℕ, ◌+◌, ◌*◌, ◌/◌, ◌≤◌, ◌<◌, ◌≡◌, ◌≢◌, sym, ◌∙◌, inl, inr, ◌⊎◌, Bool, true, false, ◌&&◌, List, map,
  none, some, ◌==◌, arith, All, Distinct, Distinct-map, All-map-ne, All-weaken,
}
use postfix_ratelimitd.Base.Text.{Text, text_eq}
use postfix_ratelimitd.Config.Plan.{CheckPlan}
use postfix_ratelimitd.Valkey.{Valkey, IsValkey}
use postfix_ratelimitd.Limiter.Keys.{sasl_identity_kind, identity, bucket_key}
use postfix_ratelimitd.Limiter.Keys.Injective.{bucket_key-injective}
use postfix_ratelimitd.Limiter.Log.{Event, weight, count_at, weight_none_All}
use postfix_ratelimitd.Limiter.Script.{run_script, check_windows, record_keys}
use postfix_ratelimitd.Limiter.Check.{
  Delivery, answered, lost_request, lost_reply, refused, bucket_keys, check_sasl, deliver,
}
use postfix_ratelimitd.Limiter.World.{World, start, recorded, elapse_step}

-- A bucket that is still kept holds nothing that its key has outlived.
bucket_outlived :
    (t size id kept at now : ℕ)
    → t / size ≡ id
    → t + (kept + size) ≤ at
    → at ≤ now
    → (id + 1) * size + kept ≤ now
bucket_outlived t size id kept at now e le passed =
    let floor = div-mul-le_self t size in rw (← e) (omega (arith, floor))

abbrev pub in_bucket : Text → ℕ → ℕ → Event → Bool
in_bucket user size id e = text_eq e.user user && e.at / size == id

module _ (V : Valkey) (key_prefix : Text) where
  abbrev pub key_of : Text → ℕ → Text
  key_of user = bucket_key key_prefix (identity sasl_identity_kind user)

  -- For a sender, a bucket size and a retention: a bucket within the retention holds what was recorded
  -- in it, and where the key is to expire, it will by then have nothing that is; no message is from
  -- the future.
  pub record Holds (user : Text) (size kept : ℕ) (w : World V) : Type 0 where
    pub counts :
        (id : ℕ)
        → V.time w.db < (id + 1) * size + kept
        → count_at id (V.hgetall w.db (key_of user size)) ≡ weight (in_bucket user size id) w.log
    pub expiry :
        (at : ℕ)
        → V.deadline w.db (key_of user size) ≡ some at
        → All (λ e. text_eq e.user user ≡ true → e.at + (kept + size) ≤ at) w.log
    pub past : All (λ e. e.at ≤ V.time w.db) w.log

  -- Less is kept for a shorter retention.
  pub Holds-shorter :
      (user : Text) (size kept span : ℕ) (w : World V)
      → span ≤ kept
      → Holds user size kept w
      → Holds user size span w
  Holds-shorter user size kept span w le v = record {
    counts = λ id live. v.counts id (omega (arith, le, live));
    expiry = λ at e. All-weaken _ _ w.log (λ x h own. omega (arith, h own, le)) (v.expiry at e);
    past = v.past;
  }

  pub check_cases :
      (user : Text) (plan : CheckPlan) (count : ℕ) (delivery : Delivery) (d : V.Db)
      → let keys = bucket_keys key_prefix user plan.bucket_sizes in
        let buckets = map (V.hgetall d) keys in
        let after = (check_sasl V key_prefix user count plan none delivery d).1 in
        ((recorded V key_prefix user plan count delivery d ≡ false) × (after ≡ d))
        ⊎ ((recorded V key_prefix user plan count delivery d ≡ true)
            × (check_windows (V.time d) count plan.bucket_sizes buckets plan.windows ≡ some true)
            × (after
                ≡ record_keys V
                    (V.time d)
                    count
                    keys
                    plan.bucket_sizes
                    plan.retention_secs
                    buckets
                    d))
  unfolding recorded check_sasl run_script deliver
  check_cases user plan count lost_request d = ground arith
  check_cases user plan count answered d = ground arith
  check_cases user plan count lost_reply d = ground arith
  check_cases user plan count refused d = ground arith

module _ (V : Valkey) (laws : IsValkey V) (key_prefix : Text) where
  pub key_of-injective :
      (u v : Text) (m n : ℕ) → key_of V key_prefix u m ≡ key_of V key_prefix v n → (u ≡ v) × (m ≡ n)
  key_of-injective u v m n e =
      let parts =
        bucket_key-injective key_prefix sasl_identity_kind sasl_identity_kind u v m n (omega arith)
          (omega arith) e in
      (parts.1, parts.2)

  pub bucket_keys-Distinct :
      (user : Text) (sizes : List ℕ) → Distinct sizes → Distinct (bucket_keys key_prefix user sizes)
  bucket_keys-Distinct user sizes distinct =
      Distinct-map (key_of V key_prefix user) (λ m n e. (key_of-injective user user m n e).1) sizes
        distinct

  pub bucket_keys-ne :
      (user other : Text) (sizes : List ℕ) (size : ℕ)
      → user ≢ other
      → All (λ k. k ≢ key_of V key_prefix other size) (bucket_keys key_prefix user sizes)
  bucket_keys-ne user other sizes size ne =
      All-map-ne (key_of V key_prefix user) (key_of V key_prefix other size)
        (λ m e. ne (key_of-injective user other m size e).0) sizes

  pub start-Holds : (user : Text) (size kept : ℕ) → Holds V key_prefix user size kept (start V)
  start-Holds user size kept = record {
    counts = λ id live. ground (arith, laws.field-empty (key_of V key_prefix user size) id);
    expiry = λ at e. tt;
    past = tt;
  }

  module _ (user : Text) (size kept : ℕ) (w : World V) (v : Holds V key_prefix user size kept w)
      (seconds : ℕ) where
    elapse-counts :
        (id : ℕ)
        → V.time (V.elapse seconds w.db) < (id + 1) * size + kept
        → count_at id (V.hgetall (V.elapse seconds w.db) (key_of V key_prefix user size))
          ≡ weight (in_bucket user size id) w.log
    elapse-counts id live =
        let now = laws.time-elapse seconds w.db in
        elim (laws.elapse-keeps seconds w.db (key_of V key_prefix user size)) [
          | inl (same, _) ↦ ground (arith, same id, v.counts id (omega (arith, now)))
          | inr (at, set, passed, gone, _) ↦
              let none_left =
                weight_none_All _ (in_bucket user size id) w.log (v.expiry at set) (λ e h.
                  ground (
                    arith,
                    bucket_outlived e.at size id kept at (V.time w.db + seconds),
                    now,
                    h,
                  )) in
              ground (arith, gone id, none_left)
        ]

    elapse-expiry :
        (at : ℕ)
        → V.deadline (V.elapse seconds w.db) (key_of V key_prefix user size) ≡ some at
        → All (λ e. text_eq e.user user ≡ true → e.at + (kept + size) ≤ at) w.log
    elapse-expiry at h = elim (laws.elapse-keeps seconds w.db (key_of V key_prefix user size)) [
      | inl (_, same) ↦ v.expiry at (sym same ∙ h)
      | inr (_, _, _, _, gone) ↦ absurd (cc)
    ]

    pub elapse-Holds : Holds V key_prefix user size kept (elapse_step V key_prefix w seconds)
    unfolding elapse_step
    elapse-Holds = record {
      counts = elapse-counts;
      expiry = elapse-expiry;
      past = All-weaken _ _ w.log (λ e le. omega (arith, laws.time-elapse seconds w.db)) v.past;
    }
