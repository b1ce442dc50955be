-- ===== src/Limiter/World/Steps.antt =====
-- A message keeps the invariant of a sender's buckets: whose message it is, whatever plan it is checked
-- against, and whether it is recorded.
use mathlib.Core.Option.{some-injective}
use postfix_ratelimitd.Base.{
  ℕ, ◌+◌, ◌*◌, ◌≤◌, ◌<◌, ◌≡◌, ◌≢◌, sym, ◌∙◌, ap, subst, inl, inr, true, false, List, ◌∷◌, map,
  arith, All, Bool-cases, get_elem?-map, All-weaken,
}
use postfix_ratelimitd.Base.Text.{Text, text_eq, text_eq_refl, text_eq_sound}
use postfix_ratelimitd.Config.Plan.{CheckPlan}
use postfix_ratelimitd.Config.Plan.Shape.{HasRow, IsWellFormed}
use postfix_ratelimitd.Config.Plan.Spans.{Keeps}
use postfix_ratelimitd.Valkey.{Valkey, IsValkey}
use postfix_ratelimitd.Limiter.Log.{Event}
use postfix_ratelimitd.Limiter.Check.{Delivery, bucket_keys}
use postfix_ratelimitd.Limiter.Script.{record_keys}
use postfix_ratelimitd.Limiter.Script.Recording.{Recorded, Untouched}
use postfix_ratelimitd.Limiter.Script.Loop.{
  time-record_keys, record_keys-Untouched, record_keys-Recorded,
}
use postfix_ratelimitd.Limiter.World.{World, check_step}
use postfix_ratelimitd.Limiter.World.Invariant.{
  key_of, bucket_keys-Distinct, bucket_keys-ne, Holds, check_cases,
}

module _ (V : Valkey) (laws : IsValkey V) (key_prefix : Text) (w : World V) (user : Text)
    (plan : CheckPlan) (shape : IsWellFormed plan) (count : ℕ) where
  abbrev keys : List Text
  keys = bucket_keys key_prefix user plan.bucket_sizes

  abbrev pub after_record : V.Db
  after_record =
      record_keys V (V.time w.db) count keys plan.bucket_sizes plan.retention_secs
        (map (V.hgetall w.db) keys) w.db

  abbrev pub new_event : Event
  new_event = record { user = user; at = V.time w.db; recipients = count }

  pub time-after_record : V.time after_record ≡ V.time w.db
  time-after_record = time-record_keys V laws (V.time w.db) count _ _ _ _ w.db

  own_key :
      (size kept : ℕ)
      → HasRow plan size kept
      → Recorded V (key_of V key_prefix user size) size kept (V.time w.db) count w.db after_record
  own_key size kept row =
      let at_key = get_elem?-map (key_of V key_prefix user) _ row.index row.size_at in
      record_keys-Recorded V laws (V.time w.db) count _ _ _ _ row.index w.db _ size kept _
        (bucket_keys-Distinct V laws key_prefix user plan.bucket_sizes shape.distinct)
        shape.positive at_key row.size_at row.kept_at
        (get_elem?-map (V.hgetall w.db) keys row.index at_key)

  other_key :
      (other : Text) (size : ℕ)
      → user ≢ other
      → Untouched V (key_of V key_prefix other size) w.db after_record
  other_key other size ne =
      record_keys-Untouched V laws (V.time w.db) count _ _ _ _ _ w.db shape.positive
        (bucket_keys-ne V laws key_prefix user other plan.bucket_sizes size ne)

  past_after : All (λ e. e.at ≤ V.time w.db) w.log → All (λ e. e.at ≤ V.time after_record) w.log
  past_after past = All-weaken _ _ w.log (λ x p. omega (arith, p, time-after_record)) past

  own-Holds :
      (size kept span : ℕ)
      → HasRow plan size kept
      → span ≤ kept
      → Holds V key_prefix user size span w
      → Holds V key_prefix user size span (record { db = after_record; log = new_event ∷ w.log })
  own-Holds size kept span row le v =
      let now = time-after_record in
      record {
        counts = λ id live.
            let live' = subst (λ t. t < (id + 1) * size + span) now live in
            ground (
              arith,
              (own_key size kept row).counts id (omega (arith, live', le)),
              v.counts id live',
              text_eq_refl user,
            );
        expiry = λ at e.
            let deadline = some-injective _ at (sym (own_key size kept row).expires ∙ e) in
            (
              λ _. omega (arith, deadline, le),
              All-weaken _ _ w.log (λ x past _. omega (arith, past, deadline, le)) v.past,
            );
        past = (omega (arith, now), past_after v.past);
      }

  other-Holds :
      (other : Text) (size kept : ℕ)
      → user ≢ other
      → text_eq user other ≡ false
      → Holds V key_prefix other size kept w
      → Holds V key_prefix other size kept (record { db = after_record; log = new_event ∷ w.log })
  other-Holds other size kept ne apart v =
      let now = time-after_record in
      let same = other_key other size ne in
      record {
        counts = λ id live.
            let live' = subst (λ t. t < (id + 1) * size + kept) now live in
            ground (arith, same.fields id, v.counts id live', apart);
        expiry = λ at e. (λ p. cc, v.expiry at (sym same.same_deadline ∙ e));
        past = (omega (arith, now), past_after v.past);
      }

  -- Every message keeps the invariant of another sender's buckets, and of the sender's own where the
  -- plan keeps them: also a rejected one, a lost request and a lost reply.
  pub check_step-Holds :
      (delivery : Delivery) (other : Text) (size span : ℕ)
      → (text_eq user other ≡ true → Keeps plan size span)
      → Holds V key_prefix other size span w
      → Holds V key_prefix other size span (check_step V key_prefix w user plan count delivery)
  unfolding check_step
  check_step-Holds delivery other size span keeps v =
      elim (check_cases V key_prefix user plan count delivery w.db) [
        | inl (quiet, same) ↦ rw quiet (rw same v)
        | inr (noted, _, after) ↦ rw noted (
            rw after (elim (Bool-cases (text_eq user other)) [
              | inr apart ↦
                  other-Holds other size span
                    (λ p. cc (text_eq_refl other, ap (λ u. text_eq u other) p)) apart v
              | inl e ↦
                  let k = keeps e in
                  let same = text_eq_sound user other e in
                  subst
                    (λ u.
                      Holds V key_prefix u size span
                        (record { db = after_record; log = new_event ∷ w.log }))
                    same
                    (own-Holds size k.kept span k.row k.long_enough
                      (subst (λ u. Holds V key_prefix u size span w) (sym same) v))
            ]))
      ]

  -- No message is from the future.
  pub check_step-past :
      (delivery : Delivery)
      → All (λ e. e.at ≤ V.time w.db) w.log
      → let after = check_step V key_prefix w user plan count delivery in
        All (λ e. e.at ≤ V.time after.db) after.log
  unfolding check_step
  check_step-past delivery past = elim (check_cases V key_prefix user plan count delivery w.db) [
    | inl (quiet, same) ↦ rw quiet (rw same past)
    | inr (noted, _, after) ↦ rw noted (
        subst (λ d. All (λ e. e.at ≤ V.time d) (new_event ∷ w.log)) (sym after)
          (omega (arith, time-after_record), past_after past))
  ]
