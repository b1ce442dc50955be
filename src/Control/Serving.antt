-- ===== src/Control/Serving.antt =====
-- src/control/mod.rs: `dispatch`, `handle_line` and `handle_connection`, and the responses of
-- src/control/rpc.rs.
pub mod Replies
pub mod Ending
pub mod Line
use postfix_ratelimitd.Base.{
  ℕ, Bool, true, false, List, [], ◌∷◌, Option, none, some, ◌==◌, if◌then◌else◌, is_empty,
}
use postfix_ratelimitd.Base.Text.{Text, codes, text_eq}
use postfix_ratelimitd.Config.Redis.{RedisApi}
use postfix_ratelimitd.Config.Rules.{RegexApi}
use postfix_ratelimitd.Config.Load.{Config, plan_for}
use postfix_ratelimitd.Valkey.{Valkey}
use postfix_ratelimitd.Protocol.{trim_end}
use postfix_ratelimitd.Protocol.Utf8.{from_utf8}
use postfix_ratelimitd.Protocol.Reading.{
  Stream, take_line, ends_with_newline, is_line_end, hits_failure,
}
use postfix_ratelimitd.Control.Status.{
  StatusResponse, StatusResult, done, failed, panicked, compute_sasl_status,
}

abbrev pub max_control_request_bytes : ℕ
max_control_request_bytes = 65536

abbrev pub ping_method : Text
ping_method = codes "ping"

abbrev pub limits_sasl_method : Text
limits_sasl_method = codes "limits.sasl"

pub data ErrorCode : Type 0 where
  parse_error invalid_request invalid_params method_not_found internal_error : ErrorCode

-- The serde_json and json_rpc_types crates: a line as JSON, JSON as a request, and `params` as
-- `LimitsSaslParams`.
pub record JsonApi : Type 1 where
  pub Value : Type 0
  pub RequestId : Type 0
  pub Request : Type 0
  pub from_str : Text → Option Value
  pub to_request : Value → Option Request
  pub method : Request → Text
  pub username : Request → Option Text
  pub id : Request → Option RequestId

pub data Reply : Type 0 where
  pong : Reply
  status : StatusResponse → Reply
  failure : ErrorCode → Reply

module _ (J : JsonApi) where
  pub record RpcResponse : Type 0 where
    pub id : Option J.RequestId
    pub reply : Reply

  pub data Dispatched : Type 0 where
    answered : RpcResponse → Dispatched
    panics : Dispatched

  unfoldable pub report_status : Option J.RequestId → StatusResult → Dispatched
  report_status id (done s) = answered (record { id = id; reply = status s })
  report_status id failed = answered (record { id = id; reply = failure internal_error })
  report_status id panicked = panics

  module _ (R : RedisApi) (X : RegexApi) (V : Valkey) where
    -- The state that a round loads, what its reads see, and whether shutdown comes first or the
    -- response cannot be written.
    pub record Round : Type 0 where
      pub cancelled : Bool
      pub config : Config R X
      pub key_prefix : Text
      pub at_time : Option (V.Db)
      pub reads : List (Option (V.Db))
      pub written : Bool

    unfoldable pub dispatch : J.Request → Round → Dispatched
    unfolding report_status
    dispatch request round =
        if text_eq (J.method request) ping_method
        then answered (record { id = J.id request; reply = pong })
        else if text_eq (J.method request) limits_sasl_method
        then elim (J.username request) [
          | none ↦ answered (record { id = J.id request; reply = failure invalid_params })
          | some user ↦ report_status (J.id request) (
              compute_sasl_status V round.key_prefix (plan_for R X round.config user) user
                round.at_time round.reads)
        ]
        else answered (record { id = J.id request; reply = failure method_not_found })

    unfoldable pub handle_line : Text → Round → Dispatched
    unfolding dispatch
    handle_line line round = elim (J.from_str line) [
      | none ↦ answered (record { id = none; reply = failure parse_error })
      | some value ↦ elim (J.to_request value) [
        | none ↦ answered (record { id = none; reply = failure invalid_request })
        | some request ↦ dispatch request round
      ]
    ]

    pub data Ended : Type 0 where
      cancelled closed read_error incomplete write_error crashed unfinished : Ended

    -- The responses written and how it ended.
    pub record Served : Type 0 where
      pub responses : List RpcResponse
      pub ended : Ended

    abbrev pub ends : List RpcResponse → Ended → Served
    ends responses how = record { responses = responses; ended = how }

    abbrev pub best_effort : Bool → RpcResponse → List RpcResponse
    best_effort true r = r ∷ []
    best_effort false r = []

    -- The loop; the cap is fresh for each line.
    unfoldable pub handle_connection : List Round → Stream → Served
    unfolding take_line hits_failure ends_with_newline trim_end handle_line
    handle_connection [] stream = ends [] unfinished
    handle_connection (round ∷ rounds) stream =
        let l = take_line max_control_request_bytes stream.bytes in
        if round.cancelled
        then ends [] cancelled
        else if hits_failure stream.ending l
        then ends [] read_error
        else elim (from_utf8 l.line) [
          | none ↦ ends [] read_error
          | some line ↦
              let rest = handle_connection rounds (record stream { bytes = l.rest }) in
              if is_empty line
              then ends [] closed
              else if ends_with_newline line
              then elim (handle_line (trim_end is_line_end line) round) [
                | panics ↦ ends [] crashed
                | answered response ↦
                    if round.written
                    then record rest { responses = response ∷ rest.responses }
                    else ends [] write_error
              ]
              else ends
                  (best_effort round.written
                    (record { id = none; reply = failure invalid_request }))
                  incomplete
        ]
