-- ===== src/Limiter/Script/Recording.antt =====
-- What the recording loop of lua/check_and_record.lua does to one key, and to the others.
use postfix_ratelimitd.Base.{
  ℕ, ◌+◌, ◌*◌, ◌/◌, ◌<◌, ◌≡◌, refl, ◌∙◌, inl, inr, false, none, some, ◌==◌, if◌then◌else◌, arith, ℤ,
  sub_ℕ, at_most-sub_ℕ, Bool-cases, ap,
}
use postfix_ratelimitd.Base.Text.{Text, text_eq, text_eq_refl}
use postfix_ratelimitd.Valkey.{Entries, Valkey, IsValkey, field, member}
use postfix_ratelimitd.Limiter.Log.{count_at}
use postfix_ratelimitd.Limiter.Script.{min_id, stale, may_be_stale, prune, record_key}
use postfix_ratelimitd.Limiter.Script.Prune.{stale_sound}

module _ (V : Valkey) where
  -- `count` recipients are added to the bucket of the time `now`; no bucket within the retention
  -- is lost; and the key is set to expire when its retention and one bucket have passed from now.
  pub record Recorded (key : Text) (size kept now count : ℕ) (d d' : V.Db) : Type 0 where
    pub counts :
        (id : ℕ)
        → now < (id + 1) * size + kept
        → count_at id (V.hgetall d' key)
          ≡ count_at id (V.hgetall d key) + (if now / size == id then count else 0)
    pub expires : V.deadline d' key ≡ some (V.time d + (kept + size))

  pub record Untouched (key : Text) (d d' : V.Db) : Type 0 where
    pub fields : (id : ℕ) → field id (V.hgetall d' key) ≡ field id (V.hgetall d key)
    pub same_deadline : V.deadline d' key ≡ V.deadline d key

  pub Untouched-trans :
      (key : Text) (a b c : V.Db) → Untouched key a b → Untouched key b c → Untouched key a c
  Untouched-trans key a b c p q = record {
    fields = λ id. q.fields id ∙ p.fields id;
    same_deadline = q.same_deadline ∙ p.same_deadline;
  }

pub bucket_ends_late : (now size kept : ℕ) → 0 < size → now < (now / size + 1) * size + kept
bucket_ends_late now size kept pos = ground arith

module _ (V : Valkey) (laws : IsValkey V) where
  time-prune :
      (key : Text) (oldest : ℤ) (size : ℕ) (l : Entries) (d : V.Db)
      → V.time (prune V key oldest size l d) ≡ V.time d
  unfolding prune
  time-prune key oldest size l d = elim (Bool-cases (may_be_stale oldest size (min_id none l))) [
    | inl e ↦ rw e (laws.time-hdel key (stale oldest size l) d)
    | inr e ↦ rw e
  ]

  pub time-record_key :
      (now count : ℕ) (key : Text) (size kept : ℕ) (l : Entries) (d : V.Db)
      → V.time (record_key V now count key size kept l d) ≡ V.time d
  unfolding record_key
  time-record_key now count key size kept l d =
      time-prune key _ size l _
      ∙ laws.time-expire key (kept + size) (V.hincrby key (now / size) count d)
      ∙ laws.time-hincrby key (now / size) count d

  prune-Untouched :
      (key : Text) (oldest : ℤ) (size : ℕ) (l : Entries) (other : Text) (d : V.Db)
      → text_eq key other ≡ false
      → Untouched V other d (prune V key oldest size l d)
  unfolding prune
  prune-Untouched key oldest size l other d ne =
      elim (Bool-cases (may_be_stale oldest size (min_id none l))) [
        | inl e ↦ rw e (record {
          fields = λ id. ground (arith, laws.field-hdel key (stale oldest size l) d other id);
          same_deadline = laws.deadline-hdel_ne key (stale oldest size l) d other ne;
        })
        | inr e ↦ rw e (record { fields = λ id. refl; same_deadline = refl })
      ]

  pub record_key-Untouched :
      (now count : ℕ) (key : Text) (size kept : ℕ) (l : Entries) (other : Text) (d : V.Db)
      → 0 < size
      → text_eq key other ≡ false
      → Untouched V other d (record_key V now count key size kept l d)
  unfolding record_key
  record_key-Untouched now count key size kept l other d pos ne =
      let counted = V.hincrby key (now / size) count d in
      let lasting = V.expire key (kept + size) counted in
      Untouched-trans V other d lasting _
        (record {
          fields = λ id. ground (
            arith,
            laws.field-expire key (kept + size) counted other id (omega arith),
            laws.field-hincrby key (now / size) count d other id,
          );
          same_deadline =
              laws.deadline-expire_ne key (kept + size) counted other ne
              ∙ laws.deadline-hincrby key (now / size) count d other;
        })
        (prune-Untouched key (sub_ℕ now kept) size l other lasting ne)

  not-stale :
      (now kept size : ℕ) (l : Entries) (id : ℕ)
      → now < (id + 1) * size + kept
      → member id (stale (sub_ℕ now kept) size l) ≡ false
  not-stale now kept size l id live =
      elim (Bool-cases (member id (stale (sub_ℕ now kept) size l))) [
        | inl m ↦ ground (
          arith,
          stale_sound (sub_ℕ now kept) size l id m,
          at_most-sub_ℕ ((id + 1) * size) now kept,
        )
        | inr e ↦ e
      ]

  -- Within the retention nothing is pruned.
  prune-field :
      (key : Text) (now kept size : ℕ) (l : Entries) (d : V.Db) (id : ℕ)
      → now < (id + 1) * size + kept
      → field id (V.hgetall (prune V key (sub_ℕ now kept) size l d) key)
        ≡ field id (V.hgetall d key)
  unfolding prune
  prune-field key now kept size l d id live =
      elim (Bool-cases (may_be_stale (sub_ℕ now kept) size (min_id none l))) [
        | inl e ↦ rw e (
            ground (
              arith,
              laws.field-hdel key (stale (sub_ℕ now kept) size l) d key id,
              not-stale now kept size l id live,
            ))
        | inr e ↦ rw e
      ]

  -- A key with a bucket within the retention keeps its deadline.
  prune-deadline :
      (key : Text) (now kept size : ℕ) (l : Entries) (d : V.Db) (id n : ℕ)
      → now < (id + 1) * size + kept
      → field id (V.hgetall d key) ≡ some n
      → V.deadline (prune V key (sub_ℕ now kept) size l d) key ≡ V.deadline d key
  unfolding prune
  prune-deadline key now kept size l d id n live there =
      let o = sub_ℕ now kept in
      elim (Bool-cases (may_be_stale o size (min_id none l))) [
        | inl e ↦ rw e (
            laws.deadline-hdel_kept key (stale o size l) d id n (
              ground (
                arith,
                there,
                laws.field-hdel key (stale o size l) d key id,
                not-stale now kept size l id live,
              )))
        | inr e ↦ rw e
      ]

  pub record_key-Recorded :
      (now count : ℕ) (key : Text) (size kept : ℕ) (l : Entries) (d : V.Db)
      → 0 < size
      → Recorded V key size kept now count d (record_key V now count key size kept l d)
  unfolding record_key
  record_key-Recorded now count key size kept l d pos =
      let counted = V.hincrby key (now / size) count d in
      let lasting = V.expire key (kept + size) counted in
      record {
        counts = λ id live. ground (
          arith,
          prune-field key now kept size l lasting id live,
          laws.field-expire key (kept + size) counted key id (omega arith),
          laws.field-hincrby key (now / size) count d key id,
          text_eq_refl key,
        );
        expires =
            let id = now / size in
            let total = count_at id (V.hgetall d key) + count in
            let there : field id (V.hgetall counted key) ≡ some total =
              ground (arith, laws.field-hincrby key id count d key id, text_eq_refl key) in
            let still : field id (V.hgetall lasting key) ≡ some total =
              laws.field-expire key (kept + size) counted key id (omega arith) ∙ there in
            prune-deadline key now kept size l lasting id total (bucket_ends_late now size kept pos)
              still
            ∙ laws.deadline-expire_self key (kept + size) counted id total (omega arith) there
            ∙ ap (λ t. some (t + (kept + size))) (laws.time-hincrby key id count d);
      }
