-- ===== src/Limiter/Keys/Injective.antt =====
-- No two senders, and no two bucket sizes, share a key of src/limiter.rs.
use postfix_ratelimitd.Base.{
  List, map, Distinct, Distinct-map, ℕ, ◌≡◌, ◌≢◌, ◌≤◌, subst, refl, sym, ◌∙◌, inl, inr, ◌||◌, false,
  [], ◌∷◌, ◌++◌, arith, All, ◌==◌, Bool-cases, if◌then◌else◌,
}
use postfix_ratelimitd.Base.Text.{Text, codes}
use postfix_ratelimitd.Base.Decimal.{decimal, decimal-All-digit, decimal-injective}
use postfix_ratelimitd.Limiter.Keys.{
  sasl_identity_kind, contains_char, replace_char, escape_identity_value, identity, bucket_key,
}

-- What the two replacements do together.
escape_char : ℕ → Text → Text
escape_char c rest = if c == b'\\' || c == b':' then b'\\' ∷ c ∷ rest else c ∷ rest

escape : Text → Text
escape [] = []
escape (c ∷ s) = escape_char c (escape s)

replace-eq-escape :
    (s : Text)
    → replace_char b':' (b'\\' ∷ b':' ∷ []) (replace_char b'\\' (b'\\' ∷ b'\\' ∷ []) s) ≡ escape s
unfolding replace_char escape escape_char
replace-eq-escape [] = refl
replace-eq-escape (c ∷ s) = ground (arith, replace-eq-escape s)

escape-plain : (s : Text) → contains_char b'\\' s || contains_char b':' s ≡ false → escape s ≡ s
unfolding contains_char escape escape_char
escape-plain [] h = refl
escape-plain (c ∷ s) h = ground (arith, escape-plain s)

escape_identity_value-eq-escape : (s : Text) → escape_identity_value s ≡ escape s
unfolding escape_identity_value
escape_identity_value-eq-escape s =
    elim (Bool-cases (contains_char b'\\' s || contains_char b':' s)) [
      | inl special ↦ rw special (replace-eq-escape s)
      | inr plain ↦ rw plain (sym (escape-plain s plain))
    ]

escape-injective : (s t : Text) → escape s ≡ escape t → s ≡ t
unfolding escape escape_char
escape-injective [] [] e = refl
escape-injective [] (d ∷ t) e = ground arith
escape-injective (c ∷ s) [] e = ground arith
escape-injective (c ∷ s) (d ∷ t) e = ground (arith, escape-injective s t)

-- A character that stands in neither part splits a text in one way only: from the left,
split_first :
    (c : ℕ) (a b s t : Text)
    → All (λ x. x ≢ c) a
    → All (λ x. x ≢ c) b
    → a ++ c ∷ s ≡ b ++ c ∷ t
    → (a ≡ b) × (s ≡ t)
split_first c [] [] s t ha hb e = ground arith
split_first c [] (x ∷ b) s t ha hb e = ground arith
split_first c (x ∷ a) [] s t ha hb e = ground arith
split_first c (x ∷ a) (y ∷ b) s t ha hb e = ground (arith, split_first c a b s t ha.1 hb.1)

-- and from the right.
All-append_right : (P : ℕ → Type 0) (a b : Text) → All P (a ++ b) → All P b
All-append_right P [] b h = h
All-append_right P (x ∷ a) b h = All-append_right P a b h.1

split_last :
    (c : ℕ) (a b s t : Text)
    → All (λ x. x ≢ c) s
    → All (λ x. x ≢ c) t
    → a ++ c ∷ s ≡ b ++ c ∷ t
    → (a ≡ b) × (s ≡ t)
split_last c [] [] s t hs ht e = ground arith
split_last c [] (x ∷ b) s t hs ht e =
    let inside : s ≡ b ++ c ∷ t = ground arith in
    absurd ((All-append_right (λ y. y ≢ c) b (c ∷ t) (subst (All (λ y. y ≢ c)) inside hs)).0 refl)
split_last c (x ∷ a) [] s t hs ht e =
    let inside : t ≡ a ++ c ∷ s = ground arith in
    absurd ((All-append_right (λ y. y ≢ c) a (c ∷ s) (subst (All (λ y. y ≢ c)) inside ht)).0 refl)
split_last c (x ∷ a) (y ∷ b) s t hs ht e = ground (arith, split_last c a b s t hs ht)

append-cancel : (p s t : Text) → p ++ s ≡ p ++ t → s ≡ t
append-cancel [] s t e = e
append-cancel (x ∷ p) s t e = append-cancel p s t (ground arith)

digits-no-colon : (s : Text) → All (λ c. (b'0' ≤ c) × (c ≤ b'9')) s → All (λ c. c ≢ b':') s
digits-no-colon [] h = tt
digits-no-colon (c ∷ s) h = (λ e. omega arith, digits-no-colon s h.1)

identity-injective :
    (k l v w : Text)
    → All (λ c. c ≢ b':') k
    → All (λ c. c ≢ b':') l
    → identity k v ≡ identity l w
    → (k ≡ l) × (v ≡ w)
unfolding identity
identity-injective k l v w hk hl e =
    let parts = split_first b':' k l (escape_identity_value v) (escape_identity_value w) hk hl e in
    (
      parts.0,
      escape-injective v w
          (sym (escape_identity_value-eq-escape v) ∙ parts.1 ∙ escape_identity_value-eq-escape w),
    )

-- Under one key prefix, and for identity kinds without a colon, two bucket keys are equal only for
-- the same kind, the same sender and the same bucket size.
pub bucket_key-injective :
    (prefix k l v w : Text) (m n : ℕ)
    → All (λ c. c ≢ b':') k
    → All (λ c. c ≢ b':') l
    → bucket_key prefix (identity k v) m ≡ bucket_key prefix (identity l w) n
    → (k ≡ l) × (v ≡ w) × (m ≡ n)
unfolding bucket_key
bucket_key-injective prefix k l v w m n hk hl e =
    let front = identity k v ++ b':' ∷ decimal m in
    let back = identity l w ++ b':' ∷ decimal n in
    let tails =
      split_last b':' (identity k v) (identity l w) (decimal m) (decimal n)
        (digits-no-colon _ (decimal-All-digit m)) (digits-no-colon _ (decimal-All-digit n))
        (append-cancel (codes ":bucket:v1:") front back (append-cancel prefix _ _ e)) in
    let names = identity-injective k l v w hk hl tails.0 in
    (names.0, names.1, decimal-injective m n tails.1)

-- The keys of one sender differ when the bucket sizes do.
pub sender_keys-Distinct :
    (prefix user : Text) (sizes : List ℕ)
    → Distinct sizes
    → Distinct (map (bucket_key prefix (identity sasl_identity_kind user)) sizes)
sender_keys-Distinct prefix user sizes =
    Distinct-map (bucket_key prefix (identity sasl_identity_kind user))
      (λ m n e.
        (bucket_key-injective prefix sasl_identity_kind sasl_identity_kind user user m n
          (omega arith) (omega arith) e).2)
      sizes
