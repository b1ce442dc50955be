-- ===== src/Control/Client/Query.antt =====
-- src/bin/postfix-ratelimitctl.rs against the daemon's control socket (src/control/mod.rs): what the
-- operator is shown is what the daemon computes.
use postfix_ratelimitd.Base.{
  ◌≡◌, ◌≢◌, ◌<◌, refl, ap, ◌∙◌, true, false, List, [], ◌∷◌, ◌++◌, none, some, Outcome, ok, err,
  length, arith, All,
}
use postfix_ratelimitd.Base.Text.{Text, codes, text_eq}
use postfix_ratelimitd.Config.Redis.{RedisApi}
use postfix_ratelimitd.Config.Rules.{RegexApi}
use postfix_ratelimitd.Config.Rules.Choice.{choose}
use postfix_ratelimitd.Config.Load.{Files, returned, load, raw_config, plan_for}
use postfix_ratelimitd.Config.Load.Chosen.{load_raw-choose}
use postfix_ratelimitd.Config.Load.Origin.{load-raw_config}
use postfix_ratelimitd.Valkey.{Valkey}
use postfix_ratelimitd.Protocol.Utf8.Encoding.{IsScalar, to_utf8, to_utf8-append}
use postfix_ratelimitd.Protocol.Reading.{closes}
use postfix_ratelimitd.Protocol.Reading.Roundtrip.{IsPlain}
use postfix_ratelimitd.Control.Status.{
  StatusResponse, StatusResult, done, failed, compute_sasl_status,
}
use postfix_ratelimitd.Control.Status
use postfix_ratelimitd.Control.Status.Total.{compute_sasl_status-returns}
use postfix_ratelimitd.Control.Serving.{
  JsonApi, RpcResponse, ErrorCode, internal_error, pong, status, failure, answered, report_status,
  Round, dispatch, handle_line, handle_connection, ping_method, limits_sasl_method,
  max_control_request_bytes,
}
use postfix_ratelimitd.Control.Serving.Line.{handle_connection-line}
use postfix_ratelimitd.Control.Client.{
  WireApi, Command, ping, limits_sasl, query_failed, Run, succeeds, fails, panics, Link, Printed,
  socket_is_up, print_status, new_request, new_ping_request, new_limits_sasl_request, send_request,
  show_result, run_query_command, run_ping_command, run_status_command, run_command,
  resolve_control_socket, run,
}
use postfix_ratelimitd.Control.Client.Laws.{IsWireApi}

-- The line that `write_response` writes.
abbrev pub write_response : (J : JsonApi) → WireApi J → RpcResponse J → Text
write_response J W response = W.response_to_vec response ++ 10 ∷ []

-- What is read back first; at the end of the connection, nothing.
abbrev pub first_line : (J : JsonApi) → WireApi J → List (RpcResponse J) → Text
first_line J W [] = []
first_line J W (response ∷ more) = write_response J W response

module _ (J : JsonApi) (W : WireApi J) (R : RedisApi) (X : RegexApi) (V : Valkey) where
  -- The daemon at the other end, serving one request.
  abbrev pub daemon_link : Round J R X V → Link
  daemon_link round = record {
    connects = true;
    takes_timeout = true;
    writes = true;
    read_line = λ line. some (
        first_line J W
          (handle_connection J R X V (round ∷ [])
            (record { bytes = to_utf8 line; ending = closes })).responses);
  }

  abbrev pub user_status : Round J R X V → Text → StatusResult
  user_status round user =
      compute_sasl_status V round.key_prefix (plan_for R X round.config user) user round.at_time
        round.reads

  -- The user's status, or the error that the daemon reports.
  abbrev pub told : Text → StatusResult → Run (List (Printed J.Value))
  told user (done s) = succeeds (print_status user s)
  told user failed = fails (query_failed internal_error)
  told user Status.panicked = panics

  abbrev pub shown : Round J R X V → Command → Run (List (Printed J.Value))
  shown round ping = succeeds (socket_is_up (codes "pong") ∷ [])
  shown round (limits_sasl user) = told user (user_status round user)

  -- The request that the client sends for a command.
  abbrev pub request_of : Command → J.Request
  request_of ping = W.request ping_method W.null (W.number 1)
  request_of (limits_sasl user) = W.request limits_sasl_method (W.params_to_value user) (W.number 1)

  abbrev pub IsSent : Command → Type 0
  IsSent command =
      length (to_utf8 (W.request_to_vec (request_of command))) < max_control_request_bytes

  -- A username is Unicode text.
  abbrev pub IsText : Command → Type 0
  IsText ping = Unit
  IsText (limits_sasl user) = All IsScalar user

  module _ (laws : IsWireApi J W) (round : Round J R X V) (going : round.cancelled ≡ false)
      (written : round.written ≡ true) where
    handle_line-request :
        (q : J.Request) → handle_line J R X V (W.request_to_vec q) round ≡ dispatch J R X V q round
    unfolding handle_line
    handle_line-request q = let (v, e, f) = laws.parsed q in ground (arith, e, f)

    -- What the client gets for a request that is dispatched to a response.
    send_request-answered :
        (q : J.Request) (response : RpcResponse J) (payload : Outcome ErrorCode J.Value)
        → All IsPlain (W.request_to_vec q)
        → length (to_utf8 (W.request_to_vec q)) < max_control_request_bytes
        → dispatch J R X V q round ≡ answered response
        → W.read_response (write_response J W response) ≡ some payload
        → send_request J W (daemon_link round) q ≡ succeeds payload
    unfolding send_request
    send_request-answered q response payload plain fits answers read =
        let bytes = to_utf8-append (W.request_to_vec q) (10 ∷ []) in
        let served =
          handle_connection-line J R X V round [] (W.request_to_vec q) [] closes response plain fits
            going written (handle_line-request q ∙ answers) in
        rw (bytes, served, read) refl

    ping-shown : IsSent ping → run_ping_command J W (daemon_link round) false ≡ shown round ping
    unfolding run_ping_command run_query_command show_result new_ping_request new_request dispatch
        text_eq
    ping-shown fits =
        let q = request_of ping in
        let response : RpcResponse J = record { id = J.id q; reply = pong } in
        let answers : dispatch J R X V q round ≡ answered response =
          rw (laws.method-request ping_method W.null (W.number 1)) refl in
        let (v, read, text) = laws.pong_read (J.id q) in
        let got =
          send_request-answered q response (ok v) (laws.null_line ping_method ground arith) fits
            answers read in
        ground (arith, got, text)

    module _ (user : Text) (scalar : All IsScalar user) where
      abbrev query : J.Request
      query = request_of (limits_sasl user)

      query-IsPlain : All IsPlain (W.request_to_vec query)
      query-IsPlain = laws.params_line limits_sasl_method user ground arith scalar

      query-dispatched :
          dispatch J R X V query round ≡ report_status J (J.id query) (user_status round user)
      unfolding dispatch text_eq
      query-dispatched =
          let method =
            laws.method-request limits_sasl_method (W.params_to_value user) (W.number 1) in
          let username = laws.username-request limits_sasl_method user (W.number 1) in
          ground (arith, method, username)

      status-shown :
          (s : StatusResult)
          → user_status round user ≡ s
          → s ≢ Status.panicked
          → IsSent (limits_sasl user)
          → run_status_command J W (daemon_link round) user false ≡ told user s
      unfolding run_status_command run_query_command show_result new_limits_sasl_request new_request
          report_status
      status-shown (done s) e returns fits =
          let (v, read, decoded) = laws.status_read (J.id query) s in
          let got =
            send_request-answered query (record { id = J.id query; reply = status s }) (ok v)
              query-IsPlain fits (query-dispatched ∙ ap (report_status J (J.id query)) e) read in
          ground (arith, got, decoded)
      status-shown failed e returns fits =
          let got =
            send_request-answered query (record { id = J.id query; reply = failure internal_error })
              (err internal_error) query-IsPlain fits
              (query-dispatched ∙ ap (report_status J (J.id query)) e)
              (laws.failure_read (J.id query) internal_error) in
          ground (arith, got)
      status-shown Status.panicked e returns fits = absurd (returns refl)

    resolved :
        (files : Files R X) (path socket : Text)
        → load R X files path ≡ returned (ok round.config)
        → round.config.control_socket ≡ some socket
        → resolve_control_socket J W R X files none path ≡ succeeds socket
    unfolding resolve_control_socket
    resolved files path socket loaded configured =
        rw (resolve_control_socket, loaded, configured) refl

    pub user_status-returns :
        (files : Files R X) (path user : Text)
        → load R X files path ≡ returned (ok round.config)
        → user_status round user ≢ Status.panicked
    user_status-returns files path user loaded =
        let (_, file, _, _, raw) = load-raw_config R X files path round.config loaded in
        let chosen = load_raw-choose R X files (raw_config file) round.config raw in
        rw (chosen.2 user) (
          compute_sasl_status-returns V round.key_prefix user
            (choose X (raw_config file).sasl_limits chosen.0 user) round.at_time round.reads)

    pub run-shows :
        (files : Files R X) (path socket : Text) (dial : Text → Link) (command : Command)
        → load R X files path ≡ returned (ok round.config)
        → round.config.control_socket ≡ some socket
        → dial socket ≡ daemon_link round
        → IsText command
        → IsSent command
        → run J W R X files dial
            (record { config = path; socket = none; raw_response = false; command = command })
          ≡ shown round command
    unfolding run run_command
    run-shows files path socket dial ping loaded configured dialled text fits =
        rw (run, resolved files path socket loaded configured, dialled) (ping-shown fits)
    run-shows files path socket dial (limits_sasl user) loaded configured dialled text fits =
        rw (run, resolved files path socket loaded configured, dialled)
          (status-shown user text (user_status round user) refl
            (user_status-returns files path user loaded) fits)
