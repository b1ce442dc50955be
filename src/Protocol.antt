-- ===== src/Protocol.antt =====
-- src/protocol.rs: the policy requests that Postfix sends, and the answers.
pub mod Utf8
pub mod Reading
use postfix_ratelimitd.Base.{
  ℕ, ◌≡◌, Bool, true, false, ◌&&◌, ◌||◌, List, [], ◌∷◌, ◌++◌, Option, none, some, leb, ◌==◌,
  is_empty, if◌then◌else◌, and_then,
}
use postfix_ratelimitd.Base.Text.{Text, codes, text_eq}
use postfix_ratelimitd.Base.Decimal.{parse_unsigned}

-- A `HashMap<String, String>`: the newest entry of a key stands first.
abbrev pub Attributes : Type 0
Attributes = List (Text × Text)

pub record Request : Type 0 where
  pub attributes : Attributes

unfoldable pub insert : Text → Text → Attributes → Attributes
insert key value attributes = (key, value) ∷ attributes

unfoldable pub get : Attributes → Text → Option Text
get [] key = none
get ((k, v) ∷ rest) key = if text_eq k key then some v else get rest key

-- Unicode's White_Space.
unfoldable pub is_whitespace : ℕ → Bool
is_whitespace c =
    (leb 9 c && leb c 13)
    || c == 32
    || c == 133
    || c == 160
    || c == 5760
    || (leb 8192 c && leb c 8202)
    || c == 8232
    || c == 8233
    || c == 8239
    || c == 8287
    || c == 12288

pub trim_start : (ℕ → Bool) → Text → Text
trim_start drops [] = []
trim_start drops (c ∷ rest) = if drops c then trim_start drops rest else c ∷ rest

keep_end : (ℕ → Bool) → ℕ → Text → Text
keep_end drops c [] = if drops c then [] else c ∷ []
keep_end drops c (d ∷ rest) = c ∷ d ∷ rest

unfoldable pub trim_end : (ℕ → Bool) → Text → Text
unfolding keep_end
trim_end drops [] = []
trim_end drops (c ∷ rest) = keep_end drops c (trim_end drops rest)

pub trim : Text → Text
unfolding trim_start trim_end
trim s = trim_end is_whitespace (trim_start is_whitespace s)

pub nonempty : Text → Option Text
nonempty s = if is_empty s then none else some s

unfoldable pub sasl_username : Request → Option Text
unfolding get trim nonempty
sasl_username request =
    and_then (get request.attributes (codes "sasl_username")) λ s. nonempty (trim s)

abbrev pub max_u32 : ℕ
max_u32 = 4294967295

unfoldable pub recipient_count : Request → Option ℕ
unfolding get parse_unsigned
recipient_count request =
    and_then (get request.attributes (codes "recipient_count")) (parse_unsigned max_u32)

unfoldable pub protocol_state : Request → Option Text
unfolding get
protocol_state request = get request.attributes (codes "protocol_state")

-- The build without the integration-tests feature.
abbrev pub now_override : Request → Option ℕ
now_override request = none

-- The bytes that `write_action` sends.
abbrev pub action_line : Text → Text
action_line action = codes "action=" ++ action ++ 10 ∷ 10 ∷ []
