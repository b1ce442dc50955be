-- ===== src/Protocol/Reading.antt =====
-- src/protocol.rs: `Request::read_from` on the bytes a connection still delivers.
pub mod Roundtrip
pub mod Cap
use postfix_ratelimitd.Base.{
  ℕ, zero, suc, ◌+◌, ◌-◌, ◌≡◌, ◌≢◌, Bool, true, false, ◌||◌, List, [], ◌∷◌, Option, none, some,
  ◌==◌, is_empty, length, if◌then◌else◌,
}
use postfix_ratelimitd.Base.Text.{Text}
use postfix_ratelimitd.Protocol.{Attributes, Request, insert, trim_end}
use postfix_ratelimitd.Protocol.Utf8.{from_utf8}

abbrev pub max_request_bytes : ℕ
max_request_bytes = 65536

-- What the peer will have sent, and whether it then closes or reading fails.
pub data Ending : Type 0 where
  closes fails : Ending

pub record Stream : Type 0 where
  pub bytes : List ℕ
  pub ending : Ending

pub data ReadError : Type 0 where
  too_large unexpected_eof invalid_utf8 io_failed : ReadError

pub data ReadResult : Type 0 where
  request : Request → Stream → ReadResult
  eof : ReadResult
  failed : ReadError → ReadResult
  out_of_fuel : ReadResult

-- The bytes of a line, what is behind them, and what is left of the cap.
pub record Line : Type 0 where
  pub line : List ℕ
  pub rest : List ℕ
  pub limit : ℕ

-- `Take::read_until` of a newline: it stops behind the newline, at the cap or at the end.
unfoldable pub take_line : ℕ → List ℕ → Line
take_line limit [] = record { line = []; rest = []; limit = limit }
take_line limit (b ∷ bytes) =
    let tail = take_line (limit - 1) bytes in
    if limit == 0
    then record { line = []; rest = b ∷ bytes; limit = 0 }
    else if b == 10
    then record { line = b ∷ []; rest = bytes; limit = limit - 1 }
    else record { line = b ∷ tail.line; rest = tail.rest; limit = tail.limit }

unfoldable pub ends_with_newline : List ℕ → Bool
ends_with_newline [] = false
ends_with_newline (b ∷ []) = b == 10
ends_with_newline (b ∷ c ∷ rest) = ends_with_newline (c ∷ rest)

abbrev pub is_line_end : ℕ → Bool
is_line_end c = c == 10 || c == 13

-- `split_once('=')`
pub split_once : Text → Option (Text × Text)
split_once [] = none
split_once (c ∷ rest) =
    if c == 61
    then some ([], rest)
    else elim (split_once rest) [ none ↦ none | some (key, value) ↦ some (c ∷ key, value) ]

pub add_attribute : Text → Attributes → Attributes
unfolding split_once insert
add_attribute trimmed attributes = elim (split_once trimmed) [
  | none ↦ attributes
  | some (key, value) ↦ insert key value attributes
]

-- Whether reading the line ran into the reader's own failure: no newline, room left, no more bytes.
unfoldable pub hits_failure : Ending → Line → Bool
unfolding ends_with_newline
hits_failure closes l = false
hits_failure fails l =
    if ends_with_newline l.line then false else if l.limit == 0 then false else true

-- The loop, with what is left of the cap. Each round but the last takes a byte.
pub read_lines : ℕ → ℕ → Attributes → Stream → ReadResult
unfolding take_line hits_failure ends_with_newline trim_end add_attribute
read_lines zero limit attributes stream = out_of_fuel
read_lines (suc fuel) limit attributes stream =
    let l = take_line limit stream.bytes in
    if hits_failure stream.ending l then failed io_failed else elim (from_utf8 l.line) [
      | none ↦ failed invalid_utf8
      | some line ↦
          let trimmed = trim_end is_line_end line in
          let next =
            read_lines fuel l.limit (add_attribute trimmed attributes)
              (record stream { bytes = l.rest }) in
          if is_empty line
          then if l.limit == 0 then failed too_large else eof
          else if ends_with_newline line
          then if is_empty trimmed
            then request (record { attributes = attributes }) (record stream { bytes = l.rest })
            else next
          else if l.limit == 0
          then failed too_large
          else failed unexpected_eof
    ]

unfoldable pub read_from : Stream → ReadResult
unfolding read_lines
read_from stream = read_lines (suc (length stream.bytes)) max_request_bytes [] stream
