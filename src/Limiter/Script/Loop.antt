-- ===== src/Limiter/Script/Loop.antt =====
-- The recording loop of lua/check_and_record.lua over all keys.
use mathlib.Core.Option.{some-injective}
use postfix_ratelimitd.Base.{
  ℕ, zero, suc, ◌<◌, ◌≡◌, ◌≢◌, refl, sym, ◌∙◌, false, List, [], ◌∷◌, some, arith, All, Distinct,
  get_elem?, Bool-cases, inl, inr,
}
use postfix_ratelimitd.Base.Text.{Text, text_eq, text_eq_iff}
use postfix_ratelimitd.Valkey.{Entries, Valkey, IsValkey}
use postfix_ratelimitd.Limiter.Script.{record_key, record_keys}
use postfix_ratelimitd.Limiter.Script.Recording.{
  Recorded, Untouched, Untouched-trans, time-record_key, record_key-Untouched, record_key-Recorded,
}

pub text_eq_of_ne : (s t : Text) → s ≢ t → text_eq s t ≡ false
text_eq_of_ne s t ne = elim (Bool-cases (text_eq s t)) [
  | inl e ↦ absurd (ne ((text_eq_iff s t).0 e))
  | inr e ↦ e
]

module _ (V : Valkey) where
  Untouched-refl : (key : Text) (d : V.Db) → Untouched V key d d
  Untouched-refl key d = record { fields = λ id. refl; same_deadline = refl }

  Recorded-after :
      (key : Text) (size kept now count : ℕ) (a b c : V.Db)
      → V.time b ≡ V.time a
      → Untouched V key a b
      → Recorded V key size kept now count b c
      → Recorded V key size kept now count a c
  Recorded-after key size kept now count a b c same u r = record {
    counts = λ id live. ground (arith, r.counts id live, u.fields id);
    expires = rw (← same) r.expires;
  }

  Recorded-before :
      (key : Text) (size kept now count : ℕ) (a b c : V.Db)
      → Recorded V key size kept now count a b
      → Untouched V key b c
      → Recorded V key size kept now count a c
  Recorded-before key size kept now count a b c r u = record {
    counts = λ id live. ground (arith, r.counts id live, u.fields id);
    expires = u.same_deadline ∙ r.expires;
  }

module _ (V : Valkey) (laws : IsValkey V) (now count : ℕ) where
  pub time-record_keys :
      (keys : List Text) (sizes keeps : List ℕ) (buckets : List Entries) (d : V.Db)
      → V.time (record_keys V now count keys sizes keeps buckets d) ≡ V.time d
  unfolding record_keys
  time-record_keys (k ∷ keys) (s ∷ sizes) (r ∷ keeps) (b ∷ buckets) d =
      time-record_keys keys sizes keeps buckets (record_key V now count k s r b d)
      ∙ time-record_key V laws now count k s r b d
  time-record_keys [] _ _ _ d = refl
  time-record_keys (k ∷ keys) [] _ _ d = refl
  time-record_keys (k ∷ keys) (s ∷ sizes) [] _ d = refl
  time-record_keys (k ∷ keys) (s ∷ sizes) (r ∷ keeps) [] d = refl

  pub record_keys-Untouched :
      (keys : List Text) (sizes keeps : List ℕ) (buckets : List Entries) (other : Text) (d : V.Db)
      → All (λ n. 0 < n) sizes
      → All (λ k. k ≢ other) keys
      → Untouched V other d (record_keys V now count keys sizes keeps buckets d)
  unfolding record_keys
  record_keys-Untouched (k ∷ keys) (s ∷ sizes) (r ∷ keeps) (b ∷ buckets) other d pos ne =
      Untouched-trans V other d (record_key V now count k s r b d) _
        (record_key-Untouched V laws now count k s r b other d pos.0 (text_eq_of_ne k other ne.0))
        (record_keys-Untouched keys sizes keeps buckets other _ pos.1 ne.1)
  record_keys-Untouched [] _ _ _ other d pos ne = Untouched-refl V other d
  record_keys-Untouched (k ∷ keys) [] _ _ other d pos ne = Untouched-refl V other d
  record_keys-Untouched (k ∷ keys) (s ∷ sizes) [] _ other d pos ne = Untouched-refl V other d
  record_keys-Untouched (k ∷ keys) (s ∷ sizes) (r ∷ keeps) [] other d pos ne =
      Untouched-refl V other d

  pub All-ne-sym : (k : Text) (keys : List Text) → All (λ y. k ≢ y) keys → All (λ y. y ≢ k) keys
  All-ne-sym k [] h = tt
  All-ne-sym k (y ∷ keys) h = (λ e. h.0 (sym e), All-ne-sym k keys h.1)

  pub ne_of_get_elem? :
      (k : Text) (keys : List Text) (i : ℕ) (key : Text)
      → All (λ y. k ≢ y) keys
      → get_elem? keys i ≡ some key
      → k ≢ key
  ne_of_get_elem? k [] i key h e = cc
  ne_of_get_elem? k (y ∷ keys) zero key h e = λ p. h.0 (ground arith)
  ne_of_get_elem? k (y ∷ keys) (suc i) key h e = ne_of_get_elem? k keys i key h.1 e

  -- Each key of the request is recorded into once.
  pub record_keys-Recorded :
      (keys : List Text) (sizes keeps : List ℕ) (buckets : List Entries) (i : ℕ) (d : V.Db)
      (key : Text) (size kept : ℕ) (l : Entries)
      → Distinct keys
      → All (λ n. 0 < n) sizes
      → get_elem? keys i ≡ some key
      → get_elem? sizes i ≡ some size
      → get_elem? keeps i ≡ some kept
      → get_elem? buckets i ≡ some l
      → Recorded V key size kept now count d (record_keys V now count keys sizes keeps buckets d)
  unfolding record_keys
  record_keys-Recorded [] sizes keeps buckets i d key size kept l dis pos ek es er eb = cc
  record_keys-Recorded (k ∷ keys) [] keeps buckets i d key size kept l dis pos ek es er eb = cc
  record_keys-Recorded (k ∷ keys) (s ∷ sizes) [] buckets i d key size kept l dis pos ek es er eb =
      cc
  record_keys-Recorded (k ∷ keys) (s ∷ sizes) (r ∷ keeps) [] i d key size kept l dis pos ek es er
        eb =
      cc
  record_keys-Recorded (k ∷ keys) (s ∷ sizes) (r ∷ keeps) (b ∷ buckets) zero d key size kept l dis
        pos ek es er eb =
      let ek' : k ≡ key = some-injective k key ek in
      let es' : s ≡ size = some-injective s size es in
      let er' : r ≡ kept = some-injective r kept er in
      rw (← ek', ← es', ← er')
        (Recorded-before V k s r now count d (record_key V now count k s r b d) _
          (record_key-Recorded V laws now count k s r b d pos.0)
          (record_keys-Untouched keys sizes keeps buckets k _ pos.1 (All-ne-sym k keys dis.0)))
  record_keys-Recorded (k ∷ keys) (s ∷ sizes) (r ∷ keeps) (b ∷ buckets) (suc i) d key size kept l
        dis pos ek es er eb =
      let once = record_key V now count k s r b d in
      Recorded-after V key size kept now count d once _ (time-record_key V laws now count k s r b d)
        (record_key-Untouched V laws now count k s r b key d pos.0
          (text_eq_of_ne k key (ne_of_get_elem? k keys i key dis.0 ek)))
        (record_keys-Recorded keys sizes keeps buckets i once key size kept l dis.1 pos.1 ek es er
          eb)
