-- ===== src/Control/Client/Laws.antt =====
-- What src/bin/postfix-ratelimitctl.rs and src/control rely on of the JSON crates.
use postfix_ratelimitd.Base.{◌≡◌, [], ◌∷◌, ◌++◌, Option, some, ok, err, All}
use postfix_ratelimitd.Base.Text.{Text, codes}
use postfix_ratelimitd.Protocol.Utf8.Encoding.{IsScalar}
use postfix_ratelimitd.Protocol.Reading.Roundtrip.{IsPlain}
use postfix_ratelimitd.Control.Status.{StatusResponse}
use postfix_ratelimitd.Control.Serving.{JsonApi, ErrorCode, pong, status, failure}
use postfix_ratelimitd.Control.Client.{WireApi}

-- What the documentation of the crates says: a request is read as it was built, it is written on one
-- line, and a response is read as it was written (the numbers in one are those of its Rust types).
pub record IsWireApi (J : JsonApi) (W : WireApi J) : Type 0 where
  pub method-request : (m : Text) (v : J.Value) (i : J.RequestId) → J.method (W.request m v i) ≡ m
  pub username-request :
      (m u : Text) (i : J.RequestId) → J.username (W.request m (W.params_to_value u) i) ≡ some u
  pub parsed :
      (q : J.Request)
      → (v : J.Value) × (J.from_str (W.request_to_vec q) ≡ some v) × (J.to_request v ≡ some q)
  pub null_line :
      (m : Text) → All IsScalar m → All IsPlain (W.request_to_vec (W.request m W.null (W.number 1)))
  pub params_line :
      (m u : Text)
      → All IsScalar m
      → All IsScalar u
      → All IsPlain (W.request_to_vec (W.request m (W.params_to_value u) (W.number 1)))
  pub pong_read :
      (id : Option J.RequestId)
      → (v : J.Value) × (W.read_response
            (W.response_to_vec (record { id = id; reply = pong }) ++ 10 ∷ [])
          ≡ some (ok v))
        × (W.to_text v ≡ some (codes "pong"))
  pub status_read :
      (id : Option J.RequestId) (s : StatusResponse)
      → (v : J.Value) × (W.read_response
            (W.response_to_vec (record { id = id; reply = status s }) ++ 10 ∷ [])
          ≡ some (ok v))
        × (W.to_status v ≡ some s)
  pub failure_read :
      (id : Option J.RequestId) (code : ErrorCode)
      → W.read_response (W.response_to_vec (record { id = id; reply = failure code }) ++ 10 ∷ [])
        ≡ some (err code)
