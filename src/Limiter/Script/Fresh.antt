-- ===== src/Limiter/Script/Fresh.antt =====
-- After the recording loop of lua/check_and_record.lua no bucket is left that ended before the
-- retention of its key.
use mathlib.Core.Option.{some-injective}
use postfix_ratelimitd.Base.{
  ℕ, zero, suc, ◌+◌, ◌*◌, ◌/◌, ◌<◌, ◌≡◌, refl, sym, ◌∙◌, true, false, List, [], ◌∷◌, some, none,
  arith, All, Distinct, get_elem?, Bool-cases, inl, inr, ℤ, sub_ℕ, at_most, at_most-sub_ℕ, is_empty,
  ℕ_discrete,
}
use postfix_ratelimitd.Base.Text.{Text, text_eq_refl}
use postfix_ratelimitd.Valkey.{Entries, Valkey, IsValkey, field, member}
use postfix_ratelimitd.Limiter.Script.{min_id, stale, may_be_stale, prune, record_key, record_keys}
use postfix_ratelimitd.Limiter.Script.Prune.{prune_shortcut}
use postfix_ratelimitd.Limiter.Script.Recording.{Untouched, bucket_ends_late, record_key-Untouched}
use postfix_ratelimitd.Limiter.Script.Loop.{
  text_eq_of_ne, record_keys-Untouched, All-ne-sym, ne_of_get_elem?,
}

stale_complete :
    (oldest : ℤ) (size : ℕ) (l : Entries) (id n : ℕ)
    → field id l ≡ some n
    → at_most ((id + 1) * size) oldest ≡ true
    → member id (stale oldest size l) ≡ true
unfolding stale
stale_complete oldest size [] id n h t = cc
stale_complete oldest size ((j, c) ∷ rest) id n h t = elim (ℕ_discrete j id) [
  | yes e ↦ rw e (ground (arith, t))
  | no ne ↦ ground (arith, stale_complete oldest size rest id n)
]

member-empty : (xs : List ℕ) (id : ℕ) → is_empty xs ≡ true → member id xs ≡ false
member-empty [] id h = refl
member-empty (x ∷ xs) id h = cc

module _ (V : Valkey) (laws : IsValkey V) (now count : ℕ) where
  -- Every bucket of the key ended within its retention.
  abbrev pub IsFresh : Text → ℕ → ℕ → V.Db → Type 0
  IsFresh key size kept d =
      (id n : ℕ) → field id (V.hgetall d key) ≡ some n → now < (id + 1) * size + kept

  prune_survivor :
      (key : Text) (size kept : ℕ) (l : Entries) (d : V.Db) (id n : ℕ)
      → field id (V.hgetall (prune V key (sub_ℕ now kept) size l d) key) ≡ some n
      → (member id (stale (sub_ℕ now kept) size l) ≡ false) × (field id (V.hgetall d key) ≡ some n)
  unfolding prune
  prune_survivor key size kept l d id n h =
      let o = sub_ℕ now kept in
      elim (Bool-cases (may_be_stale o size (min_id none l))) [
        | inl e ↦ ground (arith, e, laws.field-hdel key (stale o size l) d key id, text_eq_refl key)
        | inr e ↦ ground (arith, e, prune_shortcut o size l, member-empty (stale o size l) id)
      ]

  record_key-IsFresh :
      (key : Text) (size kept : ℕ) (l : Entries) (d : V.Db)
      → 0 < size
      → ((id : ℕ) → field id (V.hgetall d key) ≡ field id l)
      → IsFresh key size kept (record_key V now count key size kept l d)
  unfolding record_key
  record_key-IsFresh key size kept l d pos same id n h =
      let counted = V.hincrby key (now / size) count d in
      let lasting = V.expire key (kept + size) counted in
      let left = prune_survivor key size kept l lasting id n h in
      ground (
        arith,
        left,
        laws.field-expire key (kept + size) counted key id (omega arith),
        laws.field-hincrby key (now / size) count d key id,
        text_eq_refl key,
        same id,
        stale_complete (sub_ℕ now kept) size l id n,
        at_most-sub_ℕ ((id + 1) * size) now kept,
        bucket_ends_late now size kept pos,
      )

  IsFresh-Untouched :
      (key : Text) (size kept : ℕ) (d d' : V.Db)
      → IsFresh key size kept d
      → Untouched V key d d'
      → IsFresh key size kept d'
  IsFresh-Untouched key size kept d d' f u id n h = f id n (sym (u.fields id) ∙ h)

  pub record_keys-IsFresh :
      (keys : List Text) (sizes keeps : List ℕ) (buckets : List Entries) (i : ℕ) (d : V.Db)
      (key : Text) (size kept : ℕ) (l : Entries)
      → Distinct keys
      → All (λ n. 0 < n) sizes
      → get_elem? keys i ≡ some key
      → get_elem? sizes i ≡ some size
      → get_elem? keeps i ≡ some kept
      → get_elem? buckets i ≡ some l
      → ((id : ℕ) → field id (V.hgetall d key) ≡ field id l)
      → IsFresh key size kept (record_keys V now count keys sizes keeps buckets d)
  unfolding record_keys
  record_keys-IsFresh [] sizes keeps buckets i d key size kept l dis pos ek es er eb same = cc
  record_keys-IsFresh (k ∷ keys) [] keeps buckets i d key size kept l dis pos ek es er eb same = cc
  record_keys-IsFresh (k ∷ keys) (s ∷ sizes) [] buckets i d key size kept l dis pos ek es er eb
        same =
      cc
  record_keys-IsFresh (k ∷ keys) (s ∷ sizes) (r ∷ keeps) [] i d key size kept l dis pos ek es er eb
        same =
      cc
  record_keys-IsFresh (k ∷ keys) (s ∷ sizes) (r ∷ keeps) (b ∷ buckets) zero d key size kept l dis
        pos ek es er eb same =
      let ek' : k ≡ key = some-injective k key ek in
      let es' : s ≡ size = some-injective s size es in
      let er' : r ≡ kept = some-injective r kept er in
      let eb' : b ≡ l = some-injective b l eb in
      rw (← ek', ← es', ← er')
        (IsFresh-Untouched k s r (record_key V now count k s r b d) _
          (record_key-IsFresh k s r b d pos.0 (λ id. rw (ek', eb') (same id)))
          (record_keys-Untouched V laws now count keys sizes keeps buckets k _ pos.1
            (All-ne-sym V laws now count k keys dis.0)))
  record_keys-IsFresh (k ∷ keys) (s ∷ sizes) (r ∷ keeps) (b ∷ buckets) (suc i) d key size kept l dis
        pos ek es er eb same =
      let ne = text_eq_of_ne k key (ne_of_get_elem? V laws now count k keys i key dis.0 ek) in
      let u = record_key-Untouched V laws now count k s r b key d pos.0 ne in
      record_keys-IsFresh keys sizes keeps buckets i (record_key V now count k s r b d) key size
        kept l dis.1 pos.1 ek es er eb (λ id. u.fields id ∙ same id)
