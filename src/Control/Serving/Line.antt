-- ===== src/Control/Serving/Line.antt =====
-- One request line on a connection of src/control/mod.rs.
use postfix_ratelimitd.Base.{◌≡◌, ◌<◌, true, false, List, ◌∷◌, ◌++◌, length, arith, All, ℕ}
use postfix_ratelimitd.Base.Text.{Text}
use postfix_ratelimitd.Config.Redis.{RedisApi}
use postfix_ratelimitd.Config.Rules.{RegexApi}
use postfix_ratelimitd.Valkey.{Valkey}
use postfix_ratelimitd.Protocol.Utf8.Encoding.{to_utf8}
use postfix_ratelimitd.Protocol.Reading.{Ending, take_line}
use postfix_ratelimitd.Protocol.Reading.Roundtrip.{
  IsPlain, take_line-plain, ends_with_newline-snoc, trim_end-plain, not-failing, snoc-not-empty,
  line-decoded, line-bytes,
}
use postfix_ratelimitd.Control.Serving.{
  JsonApi, RpcResponse, answered, Round, handle_line, handle_connection, max_control_request_bytes,
}

module _ (J : JsonApi) (R : RedisApi) (X : RegexApi) (V : Valkey) where
  -- A whole line within the cap is answered by `handle_line`, and the rest is served behind it.
  pub handle_connection-line :
      (round : Round J R X V) (rounds : List (Round J R X V)) (line : Text) (rest : List ℕ)
      (ending : Ending) (response : RpcResponse J)
      → All IsPlain line
      → length (to_utf8 line) < max_control_request_bytes
      → round.cancelled ≡ false
      → round.written ≡ true
      → handle_line J R X V line round ≡ answered response
      → let served =
          handle_connection J R X V
            (round ∷ rounds)
            (record { bytes = to_utf8 line ++ 10 ∷ rest; ending = ending }) in
        let later = handle_connection J R X V rounds (record { bytes = rest; ending = ending }) in
        served ≡ record later { responses = response ∷ later.responses }
  unfolding handle_connection
  handle_connection-line round rounds line rest ending response plain fits going written answers =
      let took =
        take_line-plain max_control_request_bytes (to_utf8 line) rest (line-bytes line plain)
          fits in
      let newline = ends_with_newline-snoc (to_utf8 line) in
      let text_newline = ends_with_newline-snoc line in
      let healthy =
        not-failing ending (take_line max_control_request_bytes (to_utf8 line ++ 10 ∷ rest))
          (rw took newline) in
      let decoded = line-decoded line plain in
      let trimmed = trim_end-plain line plain in
      let some_line = snoc-not-empty line 10 in
      ground (
        arith, took, newline, text_newline, healthy, decoded, trimmed, some_line, going, written,
        answers,
      )
