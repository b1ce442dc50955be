-- ===== src/Limiter/Log.antt =====
-- The specification side: the messages that were recorded, and sums of their recipients.
use mathlib.Core.Path.{fun_ext}
use postfix_ratelimitd.Base.{
  ℕ, ◌+◌, ◌≤◌, ◌≡◌, refl, Bool, true, false, not, ◌&&◌, List, [], ◌∷◌, ◌==◌, ltb, leb,
  if◌then◌else◌, arith, ap, ◌≢◌, or_else, All, Distinct, Bool-cases, inl, inr, ℕ_discrete,
}
use postfix_ratelimitd.Base.Text.{Text, text_eq}
use postfix_ratelimitd.Valkey.{Entries, field, ids}

pub record Event : Type 0 where
  pub user : Text
  pub at : ℕ
  pub recipients : ℕ

-- The recipients of the messages that pass a test.
abbrev pub weight : (Event → Bool) → List Event → ℕ
weight q [] = 0
weight q (e ∷ log) = (if q e then e.recipients else 0) + weight q log

-- The recipients of `user` recorded after `start` and up to `stop`.
abbrev pub recorded_between : List Event → Text → ℕ → ℕ → ℕ
recorded_between log user start stop =
    weight (λ e. text_eq e.user user && (ltb start e.at && leb e.at stop)) log

pub weight_mono :
    (q r : Event → Bool) (log : List Event)
    → ((e : Event) → q e ≡ true → r e ≡ true)
    → weight q log ≤ weight r log
weight_mono q r [] h = omega arith
weight_mono q r (e ∷ log) h = ground (arith, h e, weight_mono q r log h)

pub weight_split :
    (q r : Event → Bool) (log : List Event)
    → weight q log ≡ weight (λ e. q e && r e) log + weight (λ e. q e && not (r e)) log
weight_split q r [] = omega arith
weight_split q r (e ∷ log) = ground (arith, weight_split q r log)

pub weight_none :
    (q : Event → Bool) (log : List Event) → ((e : Event) → q e ≡ false) → weight q log ≡ 0
weight_none q [] h = refl
weight_none q (e ∷ log) h = ground (arith, h e, weight_none q log h)

-- The sum of the counts whose id passes a test.
abbrev pub total_of : (ℕ → Bool) → Entries → ℕ
total_of p [] = 0
total_of p ((id, count) ∷ rest) = (if p id then count else 0) + total_of p rest

abbrev pub count_at : ℕ → Entries → ℕ
count_at id l = or_else (field id l) 0

weight_absent :
    (slot : Event → ℕ) (p : ℕ → Bool) (q : Event → Bool) (log : List Event)
    → ((e : Event) → q e ≡ true → p (slot e) ≡ true)
    → ((id : ℕ) → p id ≡ true → weight (λ e. q e && slot e == id) log ≤ 0)
    → weight q log ≤ 0
weight_absent slot p q [] inside h = omega arith
weight_absent slot p q (e ∷ log) inside h =
    let rest = weight_absent slot p q log inside (λ id t. omega (arith, h id t)) in
    ground (arith, inside e, h (slot e), rest)

module _ (slot : Event → ℕ) (p : ℕ → Bool) (log : List Event) where
  abbrev in_slot : (Event → Bool) → ℕ → Event → Bool
  in_slot q id e = q e && slot e == id

  abbrev elsewhere : (Event → Bool) → ℕ → Event → Bool
  elsewhere q id e = q e && not (slot e == id)

  elsewhere_self : (q : Event → Bool) (j : ℕ) → weight (in_slot (elsewhere q j) j) log ≡ 0
  elsewhere_self q j = weight_none _ log (λ e. ground arith)

  elsewhere_other :
      (q : Event → Bool) (j id : ℕ)
      → j ≢ id
      → weight (in_slot q id) log ≡ weight (in_slot (elsewhere q j) id) log
  elsewhere_other q j id ne = ap (λ r. weight r log) (fun_ext λ e. ground arith)

  -- If every slot that passes the test has a count of at least its events, the counts cover them.
  pub weight-le-total_of :
      (l : Entries) (q : Event → Bool)
      → ((e : Event) → q e ≡ true → p (slot e) ≡ true)
      → ((id : ℕ) → p id ≡ true → weight (in_slot q id) log ≤ count_at id l)
      → weight q log ≤ total_of p l
  weight-le-total_of [] q inside h = weight_absent slot p q log inside h
  weight-le-total_of ((j, n) ∷ rest) q inside h =
      let later =
        weight-le-total_of rest (elsewhere q j) (λ e t. inside e (ground arith))
          λ id t. elim (ℕ_discrete j id) [
            | yes e ↦ rw (← e) (omega (arith, elsewhere_self q j))
            | no ne ↦ ground (arith, h id t, elsewhere_other q j id ne)
          ] in
      elim (Bool-cases (p j)) [
        | inl t ↦ ground (arith, h j t, weight_split q (λ e. slot e == j) log, later)
        | inr f ↦
            let here =
              weight_none (in_slot q j) log
                (λ e. ground (arith, inside e, ap p {x = slot e} {y = j})) in
            ground (arith, here, weight_split q (λ e. slot e == j) log, later)
      ]

  absent_count : (j : ℕ) (l : Entries) → All (λ y. j ≢ y) (ids l) → count_at j l ≡ 0
  absent_count j [] h = refl
  absent_count j ((id, n) ∷ rest) h = ground (arith, h.0, absent_count j rest h.1)

  -- If none has more, the counts are covered.
  pub total_of-le-weight :
      (l : Entries) (q : Event → Bool)
      → Distinct (ids l)
      → ((id : ℕ) → p id ≡ true → count_at id l ≤ weight (in_slot q id) log)
      → total_of p l ≤ weight q log
  total_of-le-weight [] q d h = omega arith
  total_of-le-weight ((j, n) ∷ rest) q d h =
      let later = total_of-le-weight rest (elsewhere q j) d.1 λ id t. elim (ℕ_discrete j id) [
        | yes e ↦ rw (← e) (omega (arith, absent_count j rest d.0))
        | no ne ↦ ground (arith, h id t, elsewhere_other q j id ne)
      ] in
      ground (arith, h j, weight_split q (λ e. slot e == j) log, later)

pub weight_none_All :
    (P : Event → Type 0) (q : Event → Bool) (log : List Event)
    → All P log
    → ((e : Event) → P e → q e ≡ false)
    → weight q log ≡ 0
weight_none_All P q [] a h = refl
weight_none_All P q (e ∷ log) a h = ground (arith, h e a.0, weight_none_All P q log a.1 h)
