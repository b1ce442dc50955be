-- ===== src/Control/Serving/Ending.antt =====
-- That the loop of `handle_connection` of src/control/mod.rs comes to an end.
use postfix_ratelimitd.Base.{
  ◌≡◌, ◌≢◌, ◌<◌, List, [], ◌∷◌, is_empty, length, arith, Bool-cases, Option-cases, inl, inr, refl,
  ◌⊎◌,
}
use postfix_ratelimitd.Config.Redis.{RedisApi}
use postfix_ratelimitd.Config.Rules.{RegexApi}
use postfix_ratelimitd.Valkey.{Valkey}
use postfix_ratelimitd.Protocol.{trim_end}
use postfix_ratelimitd.Protocol.Utf8.{from_utf8}
use postfix_ratelimitd.Protocol.Reading.{
  Stream, take_line, ends_with_newline, is_line_end, hits_failure,
}
use postfix_ratelimitd.Protocol.Reading.Cap.{take_line-counts, length-positive}
use postfix_ratelimitd.Control.Serving.{
  JsonApi, RpcResponse, Dispatched, answered, panics, Round, handle_line, unfinished,
  handle_connection, max_control_request_bytes,
}

Dispatched-cases :
    {J : JsonApi} (x : Dispatched J) → (x ≡ panics) ⊎ ((r : RpcResponse J) × (x ≡ answered r))
Dispatched-cases panics = inl refl
Dispatched-cases (answered r) = inr (r, refl)

module _ (J : JsonApi) (R : RedisApi) (X : RegexApi) (V : Valkey) where
  -- A control connection that delivers fewer bytes than there are rounds has come to an end, whatever
  -- the bytes are and whatever is answered.
  pub handle_connection-finishes :
      (rounds : List (Round J R X V)) (stream : Stream)
      → length stream.bytes < length rounds
      → (handle_connection J R X V rounds stream).ended ≢ unfinished
  unfolding handle_connection
  handle_connection-finishes [] stream h e = omega (arith, h)
  handle_connection-finishes (round ∷ rounds) stream h e =
      let l = take_line max_control_request_bytes stream.bytes in
      let counts = take_line-counts max_control_request_bytes stream.bytes in
      elim (Bool-cases round.cancelled) [
        | inl c ↦ ground (arith, c, e)
        | inr c ↦ elim (Bool-cases (hits_failure stream.ending l)) [
          | inl f ↦ ground (arith, c, f, e)
          | inr f ↦ elim (Option-cases (from_utf8 l.line)) [
            | inl u ↦ ground (arith, c, f, u, e)
            | inr (line, u) ↦ elim (Bool-cases (is_empty line)) [
              | inl n ↦ ground (arith, c, f, u, n, e)
              | inr n ↦ elim (Bool-cases (ends_with_newline line)) [
                | inr t ↦ ground (arith, c, f, u, n, t, e)
                | inl t ↦
                    elim (Dispatched-cases
                      (handle_line J R X V (trim_end is_line_end line) round)) [
                        | inl p ↦ ground (arith, c, f, u, n, t, p, e)
                        | inr (r, p) ↦ elim (Bool-cases round.written) [
                          | inr w ↦ ground (arith, c, f, u, n, t, p, w, e)
                          | inl w ↦
                              let positive = length-positive l.line line u n in
                              let ih =
                                handle_connection-finishes rounds (record stream { bytes = l.rest })
                                  (omega (arith, counts.0, positive, h)) in
                              ground (arith, c, f, u, n, t, p, w, e, ih)
                        ]
                      ]
              ]
            ]
          ]
        ]
      ]
