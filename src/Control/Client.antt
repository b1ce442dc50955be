-- ===== src/Control/Client.antt =====
-- src/bin/postfix-ratelimitctl.rs, with the requests that src/control builds for it.
pub mod Laws
pub mod Shown
pub mod Query
pub mod Main
use postfix_ratelimitd.Base.{
  ℕ, Bool, true, false, not, List, [], ◌∷◌, ◌++◌, Option, none, some, Outcome, ok, err, leb, ◌==◌,
  length, if◌then◌else◌,
}
use postfix_ratelimitd.Base.Text.{Text, codes}
use postfix_ratelimitd.Config.Error.{ConfigError}
use postfix_ratelimitd.Config.Redis.{RedisApi}
use postfix_ratelimitd.Config.Rules.{RegexApi}
use postfix_ratelimitd.Config.Load.{Config, Files, returned, panicked, load}
use postfix_ratelimitd.Control.Status.{WindowStatus, StatusResponse, unrestricted, limited}
use postfix_ratelimitd.Control.Serving.{
  JsonApi, RpcResponse, ErrorCode, ping_method, limits_sasl_method,
}

-- What the client uses of the serde_json and json_rpc_types crates: a request and its parts, what is
-- written of a request and of a response, and what is read of a response and of its result.
pub record WireApi (J : JsonApi) : Type 0 where
  pub null : J.Value
  pub params_to_value : Text → J.Value
  pub number : ℕ → J.RequestId
  pub request : Text → J.Value → J.RequestId → J.Request
  pub request_to_vec : J.Request → Text
  pub response_to_vec : RpcResponse J → Text
  pub read_response : Text → Option (Outcome ErrorCode J.Value)
  pub to_text : J.Value → Option Text
  pub to_status : J.Value → Option StatusResponse

pub data Command : Type 0 where
  ping : Command
  limits_sasl : Text → Command

pub record Cli : Type 0 where
  pub config : Text
  pub socket : Option Text
  pub raw_response : Bool
  pub command : Command

-- What goes to stderr before the exit code of a failure.
pub data Failure : Type 0 where
  config_not_loaded : ConfigError → Failure
  control_socket_disabled not_connected no_read_timeout not_sent not_read malformed_response :
      Failure
  query_failed : ErrorCode → Failure
  malformed_result : Failure

-- `Result<A, ExitCode>`, or the panic of an `expect`.
pub data Run (A : Type 0) : Type 0 where
  succeeds : A → Run A
  fails : Failure → Run A
  panics : Run A

-- What the system does for a connection: whether each call succeeds, and the line that is read
-- back for the line that was sent.
pub record Link : Type 0 where
  pub connects : Bool
  pub takes_timeout : Bool
  pub writes : Bool
  pub read_line : Text → Option Text

-- A line on stdout; `window_line` also has the percentage of the limit that is reached.
pub data Printed (Value : Type 0) : Type 0 where
  socket_is_up : Text → Printed Value
  raw : Value → Printed Value
  is_unrestricted : Text → Printed Value
  windows_as_of : Text → ℕ → Printed Value
  zero_limit_line : ℕ → ℕ → Printed Value
  window_line : ℕ → ℕ → ℕ → Printed Value

abbrev pub print_windows : {Value : Type 0} → List WindowStatus → List (Printed Value)
print_windows [] = []
print_windows (window ∷ rest) =
    (if window.limit == 0
      then zero_limit_line window.span_secs window.current_total
      else window_line window.span_secs window.current_total window.limit)
    ∷ print_windows rest

abbrev pub print_status : {Value : Type 0} → Text → StatusResponse → List (Printed Value)
print_status username unrestricted = is_unrestricted username ∷ []
print_status username (limited computed_at windows) =
    windows_as_of username computed_at ∷ print_windows windows

-- The capacity of `MethodName`
abbrev pub max_method_bytes : ℕ
max_method_bytes = 32

module _ (J : JsonApi) (W : WireApi J) where
  pub new_request : Text → J.Value → ℕ → Option J.Request
  new_request method params id =
      if leb (length method) max_method_bytes
      then some (W.request method params (W.number id))
      else none

  pub new_ping_request : ℕ → Option J.Request
  unfolding new_request
  new_ping_request id = new_request ping_method W.null id

  pub new_limits_sasl_request : Text → ℕ → Option J.Request
  unfolding new_request
  new_limits_sasl_request username id =
      new_request limits_sasl_method (W.params_to_value username) id

  pub send_request : Link → J.Request → Run (Outcome ErrorCode J.Value)
  send_request link request =
      if not link.connects
      then fails not_connected
      else if not link.takes_timeout
      then fails no_read_timeout
      else if not link.writes
      then fails not_sent
      else elim (link.read_line (W.request_to_vec request ++ 10 ∷ [])) [
        | none ↦ fails not_read
        | some reply ↦ elim (W.read_response reply) [
          | none ↦ fails malformed_response
          | some payload ↦ succeeds payload
        ]
      ]

  -- What `send_request` gave, decoded by `decode` and printed.
  pub show_result :
      {T : Type 0}
      → Run (Outcome ErrorCode J.Value)
      → (J.Value → Option T)
      → Bool
      → (T → List (Printed J.Value))
      → Run (List (Printed J.Value))
  show_result (fails e) decode raw_response print = fails e
  show_result panics decode raw_response print = panics
  show_result (succeeds (err code)) decode raw_response print = fails (query_failed code)
  show_result (succeeds (ok result)) decode raw_response print = elim (decode result) [
    | none ↦ fails malformed_result
    | some value ↦ succeeds (if raw_response then raw result ∷ [] else print value)
  ]

  pub run_query_command :
      {T : Type 0}
      → Link
      → Option J.Request
      → (J.Value → Option T)
      → Bool
      → (T → List (Printed J.Value))
      → Run (List (Printed J.Value))
  unfolding send_request show_result
  run_query_command link none decode raw_response print = panics
  run_query_command link (some request) decode raw_response print =
      show_result (send_request link request) decode raw_response print

  pub run_ping_command : Link → Bool → Run (List (Printed J.Value))
  unfolding run_query_command new_ping_request
  run_ping_command link raw_response =
      run_query_command link (new_ping_request 1) W.to_text raw_response
        (λ reply. socket_is_up reply ∷ [])

  pub run_status_command : Link → Text → Bool → Run (List (Printed J.Value))
  unfolding run_query_command new_limits_sasl_request
  run_status_command link username raw_response =
      run_query_command link (new_limits_sasl_request username 1) W.to_status raw_response
        (print_status username)

  pub run_command : Link → Command → Bool → Run (List (Printed J.Value))
  unfolding run_ping_command run_status_command
  run_command link ping raw_response = run_ping_command link raw_response
  run_command link (limits_sasl username) raw_response =
      run_status_command link username raw_response

  module _ (R : RedisApi) (X : RegexApi) where
    pub resolve_control_socket : Files R X → Option Text → Text → Run Text
    resolve_control_socket files (some socket) config_path = succeeds socket
    resolve_control_socket files none config_path = elim (load R X files config_path) [
      | panicked ↦ panics
      | returned loaded ↦ elim loaded [
        | err e ↦ fails (config_not_loaded e)
        | ok config ↦ elim config.control_socket [
          | none ↦ fails control_socket_disabled
          | some socket ↦ succeeds socket
        ]
      ]
    ]

    -- `dial` is what a connection to each path meets.
    pub run : Files R X → (Text → Link) → Cli → Run (List (Printed J.Value))
    unfolding resolve_control_socket run_command
    run files dial cli = elim (resolve_control_socket files cli.socket cli.config) [
      | fails e ↦ fails e
      | panics ↦ panics
      | succeeds socket ↦ run_command (dial socket) cli.command cli.raw_response
    ]
