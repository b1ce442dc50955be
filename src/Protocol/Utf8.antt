-- ===== src/Protocol/Utf8.antt =====
-- `std::str::from_utf8`, which `AsyncBufReadExt::read_line` applies to each line of src/protocol.rs.
pub mod Encoding
use postfix_ratelimitd.Base.{
  ℕ, ◌+◌, ◌-◌, ◌*◌, ◌<◌, ◌≡◌, refl, Bool, ◌&&◌, ◌||◌, List, [], ◌∷◌, Option, none, some, leb, ltb,
  ◌==◌, All, arith, if◌then◌else◌,
}
use postfix_ratelimitd.Base.Text.{Text}

-- The continuation bytes still needed, the bits so far, and the range the next byte must be in.
pub record Decoder : Type 0 where
  pub need : ℕ
  pub bits : ℕ
  pub low : ℕ
  pub high : ℕ

abbrev pub idle : Decoder
idle = record { need = 0; bits = 0; low = 128; high = 191 }

between : ℕ → ℕ → ℕ → Bool
between low b high = leb low b && leb b high

expect : ℕ → ℕ → ℕ → ℕ → Option (Decoder × Option ℕ)
expect need bits low high = some (record { need = need; bits = bits; low = low; high = high }, none)

-- A byte that starts a character: the second byte's range leaves out overlong forms, surrogates
-- and what is above U+10FFFF.
lead : ℕ → Option (Decoder × Option ℕ)
unfolding between expect
lead b =
    if ltb b 128
    then some (idle, some b)
    else if between 194 b 223
    then expect 1 (b - 192) 128 191
    else if b == 224
    then expect 2 0 160 191
    else if between 225 b 236 || between 238 b 239
    then expect 2 (b - 224) 128 191
    else if b == 237
    then expect 2 13 128 159
    else if b == 240
    then expect 3 0 144 191
    else if between 241 b 243
    then expect 3 (b - 240) 128 191
    else if b == 244
    then expect 3 4 128 143
    else none

-- One byte: the next state, and the code point it completes.
advance : Decoder → ℕ → Option (Decoder × Option ℕ)
unfolding lead between expect
advance d b =
    if d.need == 0
    then lead b
    else if between d.low b d.high
    then if d.need == 1
      then some (idle, some (d.bits * 64 + (b - 128)))
      else expect (d.need - 1) (d.bits * 64 + (b - 128)) 128 191
    else none

emit : Option ℕ → Option Text → Option Text
emit none rest = rest
emit (some c) none = none
emit (some c) (some rest) = some (c ∷ rest)

decode : Decoder → List ℕ → Option Text
unfolding advance emit
decode d [] = if d.need == 0 then some [] else none
decode d (b ∷ rest) = elim (advance d b) [
  | none ↦ none
  | some (d', out) ↦ emit out (decode d' rest)
]

pub from_utf8 : List ℕ → Option Text
unfolding decode
from_utf8 bytes = decode idle bytes

pub from_utf8-ascii : (bytes : List ℕ) → All (λ b. b < 128) bytes → from_utf8 bytes ≡ some bytes
unfolding from_utf8 decode advance lead emit
from_utf8-ascii [] h = refl
from_utf8-ascii (b ∷ rest) h = ground (arith, from_utf8-ascii rest h.1, h.0)

utf8_euro : from_utf8 (226 ∷ 130 ∷ 172 ∷ 65 ∷ []) ≡ some (8364 ∷ 65 ∷ [])
unfolding from_utf8
utf8_euro = refl
