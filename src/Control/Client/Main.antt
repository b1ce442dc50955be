-- ===== src/Control/Client/Main.antt =====
-- src/bin/postfix-ratelimitctl.rs: the command line with its default, and `main` with its exit codes.
use postfix_ratelimitd.Base.{
  ℕ, ◌≡◌, ◌≢◌, refl, sym, subst, Bool, true, false, List, [], ◌∷◌, map, All, Option, none, some,
  Outcome, ok, err, or_else,
}
use postfix_ratelimitd.Base.Text.{Text, codes}
use postfix_ratelimitd.Config.Redis.{RedisApi}
use postfix_ratelimitd.Config.Rules.{RegexApi}
use postfix_ratelimitd.Config.Load.{Files, default_config_path, returned, load}
use postfix_ratelimitd.Valkey.{Valkey}
use postfix_ratelimitd.Control.Serving.{JsonApi, Round, internal_error}
use postfix_ratelimitd.Control.Status.{unrestricted, limited, StatusResult, done, failed, panicked}
use postfix_ratelimitd.Control.Client.{
  WireApi, Command, ping, limits_sasl, Cli, Failure, query_failed, Run, succeeds, fails, panics,
  Link, Printed, socket_is_up, is_unrestricted, windows_as_of, print_windows, run,
}
use postfix_ratelimitd.Control.Client.Laws.{IsWireApi}
use postfix_ratelimitd.Control.Client.Query.{
  IsText, IsSent, daemon_link, user_status, told, shown, user_status-returns, run-shows,
}
use postfix_ratelimitd.Control.Client.Shown.{reading, reported, IsDefined, print_windows-reported}

-- The options as the clap crate reads them from the command line and the environment.
pub record Arguments : Type 0 where
  pub config : Option Text
  pub socket : Option Text
  pub raw_response : Bool
  pub command : Command

abbrev pub parsed : Arguments → Cli
parsed arguments = record {
  config = or_else arguments.config default_config_path;
  socket = arguments.socket;
  raw_response = arguments.raw_response;
  command = arguments.command;
}

-- How the process ends: with an exit code, what it has printed, and the failure it has told, or a panic.
pub data Ended (Value : Type 0) : Type 0 where
  exited : ℕ → List (Printed Value) → Option Failure → Ended Value
  crashed : Ended Value

-- `SUCCESS`, or the code of the failure
pub finished : {Value : Type 0} → Run (List (Printed Value)) → Ended Value
finished (succeeds lines) = exited 0 lines none
finished (fails e) = exited 1 [] (some e)
finished panics = crashed

module _ (J : JsonApi) (W : WireApi J) (R : RedisApi) (X : RegexApi) where
  -- On what `Cli::parse` returns, or the code it exits with
  unfoldable pub main : Files R X → (Text → Link) → Outcome ℕ Arguments → Ended J.Value
  unfolding finished run
  main files dial (err code) = exited code [] none
  main files dial (ok arguments) = finished (run J W R X files dial (parsed arguments))

  module _ (V : Valkey) (round : Round J R X V) where
    -- For a user without windows the line that says so; otherwise the time of the totals, and behind it
    -- one line for each window in the order of the plan, which states its span, total and limit, with a
    -- percentage only of a limit that is not zero; and the failure that the daemon reports.
    abbrev pub IsShownStatus : Text → StatusResult → Ended J.Value → Type 0
    IsShownStatus user (done unrestricted) ended = ended ≡ exited 0 (is_unrestricted user ∷ []) none
    IsShownStatus user (done (limited at windows)) ended =
        (lines : List (Printed J.Value)) × (ended ≡ exited 0 (windows_as_of user at ∷ lines) none)
        × (map reading lines ≡ map reported windows)
        × All IsDefined lines
    IsShownStatus user failed ended = ended ≡ exited 1 [] (some (query_failed internal_error))
    IsShownStatus user panicked ended = ⊥

    abbrev pub IsShown : Command → Ended J.Value → Type 0
    IsShown ping ended = ended ≡ exited 0 (socket_is_up (codes "pong") ∷ []) none
    IsShown (limits_sasl user) ended = IsShownStatus user (user_status J W R X V round user) ended

    told-IsShownStatus :
        (user : Text) (s : StatusResult)
        → s ≢ panicked
        → IsShownStatus user s (finished (told J W R X V user s))
    unfolding finished
    told-IsShownStatus user (done unrestricted) h = refl
    told-IsShownStatus user (done (limited at windows)) h =
        let read = print_windows-reported J.Value windows in
        (print_windows windows, refl, read.0, read.1)
    told-IsShownStatus user failed h = refl
    told-IsShownStatus user panicked h = absurd (h refl)

  module _ (V : Valkey) (laws : IsWireApi J W) (round : Round J R X V)
      (going : round.cancelled ≡ false) (written : round.written ≡ true) where
    shown-IsShown :
        (files : Files R X) (path : Text) (command : Command)
        → load R X files path ≡ returned (ok round.config)
        → IsShown V round command (finished (shown J W R X V round command))
    unfolding finished
    shown-IsShown files path ping loaded = refl
    shown-IsShown files path (limits_sasl user) loaded =
        told-IsShownStatus V round user (user_status J W R X V round user)
          (user_status-returns J W R X V laws round going written files path user loaded)

    -- The client reads the config file that the daemon has loaded, which names a control socket, and its
    -- connection to that socket is served: no shutdown comes first and the response can be written.
    -- Then `ping` shows the daemon's reply and exits with 0. `limits sasl` exits with 0 and prints, of the
    -- status that the daemon computes for the user, that there is no limit, or the time and behind it one
    -- line for each window, in order, that states its span, its total and its limit, with a percentage
    -- where the limit is not zero; or, when the daemon's reads of the server
    -- fail, the client prints nothing, tells of the daemon's internal error, and exits with a failure;
    -- nothing else happens. The username is Unicode text, the request is shorter than 64 KiB, and neither
    -- `--socket` nor `--raw-response` is given.
    pub main-shows :
        (files : Files R X) (config : Option Text) (socket : Text) (dial : Text → Link)
        (command : Command)
        → load R X files (or_else config default_config_path) ≡ returned (ok round.config)
        → round.config.control_socket ≡ some socket
        → dial socket ≡ daemon_link J W R X V round
        → IsText J W R X V command
        → IsSent J W R X V command
        → IsShown V round command (
            main files dial (
              ok (record {
                config = config;
                socket = none;
                raw_response = false;
                command = command;
              })))
    unfolding main
    main-shows files config socket dial command loaded configured dialled text fits =
        let path = or_else config default_config_path in
        let same =
          run-shows J W R X V laws round going written files path socket dial command loaded
            configured dialled text fits in
        subst (λ r. IsShown V round command (finished r)) (sym same)
          (shown-IsShown files path command loaded)
