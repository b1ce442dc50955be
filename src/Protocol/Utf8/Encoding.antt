-- ===== src/Protocol/Utf8/Encoding.antt =====
-- What is encoded as UTF-8 is what `from_utf8` decodes.
use postfix_ratelimitd.Base.{
  ℕ, ◌+◌, ◌-◌, ◌*◌, ◌/◌, ◌%◌, ◌<◌, ◌≤◌, ◌≡◌, ◌≢◌, ◌⊎◌, refl, ap, sym, ◌∙◌, List, [], ◌∷◌, ◌++◌,
  some, ltb, ◌==◌, All, All-append, arith, dec_lt, if◌then◌else◌,
}
use postfix_ratelimitd.Base.Text.{Text}
use postfix_ratelimitd.Protocol.Utf8.{idle, between, expect, lead, advance, emit, decode, from_utf8}

-- A code point that is no surrogate and not above U+10FFFF.
abbrev pub IsScalar : ℕ → Type 0
IsScalar c = (c < 1114112) × ((c < 55296) ⊎ (57344 ≤ c))

abbrev pub encode_char : ℕ → List ℕ
encode_char c =
    if ltb c 128
    then c ∷ []
    else if ltb c 2048
    then (192 + c / 64) ∷ (128 + c % 64) ∷ []
    else if ltb c 65536
    then (224 + c / 4096) ∷ (128 + c / 64 % 64) ∷ (128 + c % 64) ∷ []
    else (240 + c / 262144) ∷ (128 + c / 4096 % 64) ∷ (128 + c / 64 % 64) ∷ (128 + c % 64) ∷ []

abbrev pub to_utf8 : Text → List ℕ
to_utf8 [] = []
to_utf8 (c ∷ rest) = encode_char c ++ to_utf8 rest

-- A continuation byte in range, the last one or not.
decode-last :
    (bits low high b : ℕ) (rest : List ℕ)
    → low ≤ b
    → b ≤ high
    → decode (record { need = 1; bits = bits; low = low; high = high }) (b ∷ rest)
      ≡ emit (some (bits * 64 + (b - 128))) (decode idle rest)
unfolding decode advance between
decode-last bits low high b rest le ge = ground arith

decode-next :
    (need bits low high b : ℕ) (rest : List ℕ)
    → low ≤ b
    → b ≤ high
    → decode (record { need = need + 2; bits = bits; low = low; high = high }) (b ∷ rest)
      ≡ decode
          (record { need = need + 1; bits = bits * 64 + (b - 128); low = 128; high = 191 })
          rest
unfolding decode advance between expect emit
decode-next need bits low high b rest le ge = ground arith

decode-one :
    (c : ℕ) (rest : List ℕ)
    → c < 128
    → decode idle (encode_char c ++ rest) ≡ emit (some c) (decode idle rest)
unfolding decode advance lead
decode-one c rest one = ground (arith, one)

decode-two :
    (b : ℕ) (rest : List ℕ)
    → 194 ≤ b
    → b ≤ 223
    → decode idle (b ∷ rest)
      ≡ decode (record { need = 1; bits = b - 192; low = 128; high = 191 }) rest
unfolding decode advance lead between expect emit
decode-two b rest le ge = ground arith

decode-three :
    (b : ℕ) (rest : List ℕ)
    → 224 ≤ b
    → b ≤ 239
    → decode idle (b ∷ rest)
      ≡ decode
          (record {
            need = 2;
            bits = b - 224;
            low = if b == 224 then 160 else 128;
            high = if b == 237 then 159 else 191;
          })
          rest
unfolding decode advance lead between expect emit
decode-three b rest le ge = ground arith

decode-four :
    (b : ℕ) (rest : List ℕ)
    → 240 ≤ b
    → b ≤ 244
    → decode idle (b ∷ rest)
      ≡ decode
          (record {
            need = 3;
            bits = b - 240;
            low = if b == 240 then 144 else 128;
            high = if b == 244 then 143 else 191;
          })
          rest
unfolding decode advance lead between expect emit
decode-four b rest le ge = ground arith

decode-two_bytes :
    (c : ℕ) (rest : List ℕ)
    → 128 ≤ c
    → c < 2048
    → decode idle (encode_char c ++ rest) ≡ emit (some c) (decode idle rest)
decode-two_bytes c rest over two =
    let b = 192 + c / 64 in
    let first = decode-two b ((128 + c % 64) ∷ rest) (omega arith) (omega arith) in
    let last = decode-last (b - 192) 128 191 (128 + c % 64) rest (omega arith) (omega arith) in
    let value : (b - 192) * 64 + (128 + c % 64 - 128) ≡ c = omega arith in
    ground (arith, first, last, value)

decode-three_bytes :
    (c : ℕ) (rest : List ℕ)
    → 2048 ≤ c
    → c < 65536
    → (c < 55296) ⊎ (57344 ≤ c)
    → decode idle (encode_char c ++ rest) ≡ emit (some c) (decode idle rest)
decode-three_bytes c rest over three scalar =
    let b = 224 + c / 4096 in
    let b2 = 128 + c / 64 % 64 in
    let b3 = 128 + c % 64 in
    let low : (if b == 224 then 160 else 128) ≤ b2 = ground (arith, scalar) in
    let high : b2 ≤ (if b == 237 then 159 else 191) = ground (arith, scalar) in
    let first = decode-three b (b2 ∷ b3 ∷ rest) (omega arith) (omega arith) in
    let second = decode-next 0 (b - 224) _ _ b2 (b3 ∷ rest) low high in
    let last =
      decode-last ((b - 224) * 64 + (b2 - 128)) 128 191 b3 rest (omega arith) (omega arith) in
    let value : ((b - 224) * 64 + (b2 - 128)) * 64 + (b3 - 128) ≡ c = omega arith in
    ground (arith, first, second, last, value)

decode-four_bytes :
    (c : ℕ) (rest : List ℕ)
    → 65536 ≤ c
    → c < 1114112
    → decode idle (encode_char c ++ rest) ≡ emit (some c) (decode idle rest)
decode-four_bytes c rest over small =
    let b = 240 + c / 262144 in
    let b2 = 128 + c / 4096 % 64 in
    let b3 = 128 + c / 64 % 64 in
    let b4 = 128 + c % 64 in
    let low : (if b == 240 then 144 else 128) ≤ b2 = ground arith in
    let high : b2 ≤ (if b == 244 then 143 else 191) = ground arith in
    let first = decode-four b (b2 ∷ b3 ∷ b4 ∷ rest) (omega arith) (omega arith) in
    let second = decode-next 1 (b - 240) _ _ b2 (b3 ∷ b4 ∷ rest) low high in
    let third =
      decode-next 0 ((b - 240) * 64 + (b2 - 128)) 128 191 b3 (b4 ∷ rest) (omega arith)
        (omega arith) in
    let last =
      decode-last (((b - 240) * 64 + (b2 - 128)) * 64 + (b3 - 128)) 128 191 b4 rest (omega arith)
        (omega arith) in
    let value : (((b - 240) * 64 + (b2 - 128)) * 64 + (b3 - 128)) * 64 + (b4 - 128) ≡ c =
      omega arith in
    ground (arith, first, second, third, last, value)

decode-encode_char :
    (c : ℕ) (rest : List ℕ)
    → IsScalar c
    → decode idle (encode_char c ++ rest) ≡ emit (some c) (decode idle rest)
decode-encode_char c rest (small, scalar) = elim (dec_lt c 128) [
  | yes one ↦ decode-one c rest one
  | no over1 ↦ elim (dec_lt c 2048) [
    | yes two ↦ decode-two_bytes c rest (omega (arith, over1)) two
    | no over2 ↦ elim (dec_lt c 65536) [
      | yes three ↦ decode-three_bytes c rest (omega (arith, over2)) three scalar
      | no over3 ↦ decode-four_bytes c rest (omega (arith, over3)) small
    ]
  ]
]

append_assoc : (xs ys zs : List ℕ) → (xs ++ ys) ++ zs ≡ xs ++ (ys ++ zs)
append_assoc [] ys zs = refl
append_assoc (x ∷ xs) ys zs = ap (λ l. x ∷ l) (append_assoc xs ys zs)

-- Encoded text, and what is behind it.
pub from_utf8-to_utf8 :
    (s : Text) (rest : List ℕ) (decoded : Text)
    → All IsScalar s
    → from_utf8 rest ≡ some decoded
    → from_utf8 (to_utf8 s ++ rest) ≡ some (s ++ decoded)
unfolding from_utf8 emit
from_utf8-to_utf8 [] rest decoded h e = e
from_utf8-to_utf8 (c ∷ s) rest decoded h e =
    let here = decode-encode_char c (to_utf8 s ++ rest) h.0 in
    let ih = from_utf8-to_utf8 s rest decoded h.1 e in
    rw (append_assoc (encode_char c) (to_utf8 s) rest, here, ih) refl

-- A byte below 128 stands for itself only.
encode_char-ne : (c b : ℕ) → b < 128 → c ≢ b → All (λ x. x ≢ b) (encode_char c)
encode_char-ne c b low ne = ground arith

pub to_utf8-ne : (b : ℕ) (s : Text) → b < 128 → All (λ c. c ≢ b) s → All (λ x. x ≢ b) (to_utf8 s)
to_utf8-ne b [] low h = tt
to_utf8-ne b (c ∷ s) low h =
    All-append (λ x. x ≢ b) (encode_char c) (to_utf8 s) (encode_char-ne c b low h.0)
      (to_utf8-ne b s low h.1)

pub to_utf8-append : (s t : Text) → to_utf8 (s ++ t) ≡ to_utf8 s ++ to_utf8 t
to_utf8-append [] t = refl
to_utf8-append (c ∷ s) t =
    ap (λ l. encode_char c ++ l) (to_utf8-append s t)
    ∙ sym (append_assoc (encode_char c) (to_utf8 s) (to_utf8 t))
