-- ===== src/Base/Decimal.antt =====
-- Rust's decimal `Display` and `FromStr` of the unsigned integers.
use Prim.Native.Nat.{ℕ, zero, suc, ◌+◌, ◌-◌, ◌*◌, ◌/◌, ◌%◌, ◌≤◌, ◌<◌}
use mathlib.Core.Path.{◌≡◌, refl, sym, ◌∙◌, ap}
use mathlib.Core.Logic.{◌≢◌, inl, inr}
use mathlib.Core.Bool.{Bool, ◌&&◌}
use mathlib.Core.List.{[], ◌∷◌, ◌++◌}
use mathlib.Core.Option.{Option, none, some, some-injective}
use native.Mathlib.Omega.{arith}
use postfix_ratelimitd.Base.Tests.{ltb, leb, ◌==◌, if◌then◌else◌, Bool-cases, and_then}
use postfix_ratelimitd.Base.Lists.{All, All-append}
use postfix_ratelimitd.Base.Text.{Text}

digits : ℕ → ℕ → Text
digits zero n = []
digits (suc fuel) n =
    let front = digits fuel (n / 10) in
    if ltb n 10 then (b'0' + n) ∷ [] else front ++ (b'0' + n % 10) ∷ []

-- A number has fewer digits than its successor counts, so the fuel is enough.
unfoldable pub decimal : ℕ → Text
unfolding digits
decimal n = digits (suc n) n

is_digit : ℕ → Bool
is_digit c = leb b'0' c && leb c b'9'

-- The loop of `FromStr`: a digit that would pass `bound` is an overflow.
unfoldable pub read_digits : ℕ → ℕ → Text → Option ℕ
unfolding is_digit
read_digits bound acc [] = some acc
read_digits bound acc (c ∷ rest) =
    let acc' = acc * 10 + (c - b'0') in
    let result = read_digits bound acc' rest in
    if is_digit c && leb acc' bound then result else none

-- `str::parse` of an unsigned integer that holds at most `bound`: one `+` may lead, a `-` may not.
unfoldable pub parse_unsigned : ℕ → Text → Option ℕ
parse_unsigned bound [] = none
parse_unsigned bound (c ∷ []) = if c == b'+' then none else read_digits bound 0 (c ∷ [])
parse_unsigned bound (c ∷ d ∷ rest) =
    if c == b'+' then read_digits bound 0 (d ∷ rest) else read_digits bound 0 (c ∷ d ∷ rest)

read_digits-append :
    (bound acc : ℕ) (s t : Text)
    → read_digits bound acc (s ++ t)
      ≡ and_then (read_digits bound acc s) (λ a. read_digits bound a t)
unfolding read_digits
read_digits-append bound acc [] t = refl
read_digits-append bound acc (c ∷ s) t =
    ground (arith, read_digits-append bound (acc * 10 + (c - b'0')) s t)

read_digits-digits :
    (bound fuel n : ℕ) → n < fuel → n ≤ bound → read_digits bound 0 (digits fuel n) ≡ some n
unfolding digits read_digits
read_digits-digits bound zero n h le = elim h [ ]
read_digits-digits bound (suc fuel) n h le = elim (Bool-cases (ltb n 10)) [
  | inl small ↦ rw (small, digits) (ground arith)
  | inr large ↦
      rw (large, digits)
        (rw read_digits-append
          (rw (read_digits-digits bound fuel (n / 10) (ground arith) (omega arith)) (ground arith)))
]

digits-All-digit : (fuel n : ℕ) → All (λ c. (b'0' ≤ c) × (c ≤ b'9')) (digits fuel n)
unfolding digits
digits-All-digit zero n = tt
digits-All-digit (suc fuel) n = elim (Bool-cases (ltb n 10)) [
  | inl small ↦ rw (small, digits) (ground arith)
  | inr large ↦
      rw (large, digits)
        (All-append _ (digits fuel (n / 10)) ((b'0' + n % 10) ∷ []) (digits-All-digit fuel (n / 10))
          (omega arith))
]

digits-ne-nil : (fuel n : ℕ) → n < fuel → digits fuel n ≢ []
unfolding digits
digits-ne-nil zero n h = elim h [ ]
digits-ne-nil (suc fuel) n h = elim (Bool-cases (ltb n 10)) [
  | inl small ↦ rw (small, digits) (λ e. cc)
  | inr large ↦ rw (large, digits) (snoc-ne-nil (digits fuel (n / 10)) _)
]
  where
    snoc-ne-nil : (xs : Text) (y : ℕ) → xs ++ y ∷ [] ≢ []
    snoc-ne-nil [] y e = cc
    snoc-ne-nil (x ∷ xs) y e = cc

-- `parse` of digits alone is the loop.
parse-digits :
    (bound : ℕ) (s : Text)
    → s ≢ []
    → All (λ c. (b'0' ≤ c) × (c ≤ b'9')) s
    → parse_unsigned bound s ≡ read_digits bound 0 s
unfolding parse_unsigned
parse-digits bound [] ne h = absurd (ne refl)
parse-digits bound (c ∷ []) ne h = ground arith
parse-digits bound (c ∷ d ∷ s) ne h = ground arith

pub decimal-All-digit : (n : ℕ) → All (λ c. (b'0' ≤ c) × (c ≤ b'9')) (decimal n)
unfolding decimal
decimal-All-digit n = digits-All-digit (suc n) n

pub parse-decimal : (bound n : ℕ) → n ≤ bound → parse_unsigned bound (decimal n) ≡ some n
unfolding decimal
parse-decimal bound n le =
    parse-digits bound (digits (suc n) n) (digits-ne-nil (suc n) n (omega arith))
      (digits-All-digit (suc n) n)
    ∙ read_digits-digits bound (suc n) n (omega arith) le

pub decimal-injective : (m n : ℕ) → decimal m ≡ decimal n → m ≡ n
decimal-injective m n e = some-injective m n (sym (read m (omega arith)) ∙ both)
  where
    read : (k : ℕ) → k ≤ m + n → parse_unsigned (m + n) (decimal k) ≡ some k
    read k le = parse-decimal (m + n) k le

    both : parse_unsigned (m + n) (decimal m) ≡ some n
    both = ap (parse_unsigned (m + n)) e ∙ read n (omega arith)
