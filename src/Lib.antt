-- ===== src/Lib.antt =====
-- The verification library of postfix-ratelimitd, a daemon that limits how many recipients an
-- authenticated sender may address: Postfix asks it about each message over a policy socket, it counts
-- recipients in a Valkey server through a Lua script, and it answers with an action.
--
-- The parts, and the files that model them:
--  * src/config.rs is Config. Config/Window has `Window` and the bounds on it, Config/Bucket
--    `bucket_size`, Config/Plan `CheckPlan::new`, Config/Rules the `sasl` entries, their validation and
--    the loop that compiles them, and Config/Load the sections of the file, `Config::load` and
--    `Config::plan_for`. The redis, regex-lite and toml crates and the file system are parameters
--    (Config/Redis, `RegexApi`, `Files`).
--  * lua/check_and_record.lua is Limiter/Script: `run_script` on the state of a server. Valkey states
--    the commands it calls as a record of operations with laws; Valkey/Memory is a server that has them.
--  * src/limiter.rs is Limiter/Keys (`identity`, `bucket_key`), Limiter/Check (`check_sasl`, with what
--    the network, or a server that refuses it, does to one invocation), Limiter/Support (`check_command_support`) and Limiter/Connect
--    (the steps of `Limiter::new`). Limiter/World runs checks of any senders against one database while
--    time passes, under a fixed configuration or, in Limiter/World/History, each against the plan in
--    force for it, and keeps a log of what was recorded (Limiter/Log) to specify against.
--  * src/protocol.rs is Protocol: the accessors of `Request`, Protocol/Utf8 for the decoding of a
--    line (Protocol/Utf8/Encoding is its inverse), and Protocol/Reading for `Request::read_from` on the
--    bytes a connection delivers.
--  * src/bin/postfix-ratelimitd.rs, src/state.rs and the actions of src/lib.rs are Daemon: Daemon/Stats
--    (`log_throttled`, `report_stats`), Daemon/Request (`handle_request`, and `handle_connection` in
--    Daemon/Request/Serving), Daemon/Reload (`reload_config`, and the worker that a SIGHUP spawns as
--    steps of two tasks in Daemon/Reload/Worker), Daemon/Connections (the cap on connections and
--    the drain at shutdown, as steps of the main task and of the connections beside it; the arms of
--    `select!` and a pass of the loop on one of them in Daemon/Connections/Loop), Daemon/Startup (the
--    startup locks, `bind_socket`, `--check-config`, and the order in which `main` uses them),
--    Daemon/Main (`main` from its first line to its loop: the command line in Daemon/Main/CommandLine,
--    `init_logging` and `fatal` in Daemon/Main/Logging), Daemon/System, which has the requests in
--    flight with the state that each has loaded, answers, reloads, and the servers
--    (Daemon/System/Connection relates it to `handle_connection` on bytes, and Daemon/System/Interleaved
--    takes its reloads apart into the steps of their workers, those of Daemon/Reload/Worker by
--    Daemon/System/Interleaved/Requests), and Daemon/Whole, the loop's tasks
--    together: Daemon/Connections and Daemon/System/Interleaved in one step relation.
--  * src/control is Control: Control/Status has `compute_sasl_status`, with a database of its own for
--    each read, and Control/Serving `dispatch`, `handle_line` and `handle_connection`.
--    Control/Client is src/bin/postfix-ratelimitctl.rs, with the constructors of its requests, and
--    Control/Client/Main its `main`. The JSON crates are parameters (`JsonApi`, `WireApi`).
--  * Base has what they share; Examples has concrete runs and the theorems at concrete inputs, and
--    UnitTests the unit tests that stand in src/config.rs, src/limiter.rs, src/protocol.rs and
--    src/bin/postfix-ratelimitd.rs, run on the definitions.
--
-- A request flows from Protocol through Daemon/Request, which takes the user's plan from Config and asks
-- Limiter/Check, which runs the script on the database; a reload replaces configuration and limiter, and
-- a request in flight keeps the pair it has loaded. In Daemon/System a database belongs to the connection
-- settings that `same_redis_connection` compares, and a request and its script run are one step, since
-- the server runs a script at once.
--
-- Numbers are natural numbers. The counters of `Stats` wrap at 2^64 as `AtomicU64` does. Recipient counts
-- are bounded by 2^32 - 1 where they are parsed; bucket sizes and spans are at most 31 days, so sums
-- stay far from the limits of u64, and the script's numbers, IEEE doubles, are taken to be exact, as they
-- are below 2^53. A difference that may be negative (`now - span_secs`) is an integer.
--
-- Text is a list of code points, and a map an association list with the newest entry first. Loops are
-- structural where they can be. `bucket_size` has fuel 17, since it doubles from 1 and 2^17 is past its
-- largest value. `read_from` has one more than the number of bytes, since each round but the last takes
-- a byte. The two loops `handle_connection` run over a list of what their rounds meet, and one round more
-- than there are bytes is enough.
--
-- The server's clock is not set back. The command-line parser and the log crates are parameters of
-- `main` (`Arguments`, `LogApi`), and so is what the system refuses (`Faults`, `Surroundings`); what a
-- process leaves to the system when it ends is left out. A lock file is an ordinary file, created where
-- nothing is, and a lock is held on its path. An error of the server is one that comes before the script
-- has written anything (`refused` of Limiter/Check); the script rolls nothing back, and an error between
-- two of its writes is not modelled, nor are the calls of the sockets, the percentage that the client prints beside a
-- window's count, which is a floating-point number, the JSON encoding of the script's argument, and,
-- in the build with the integration-tests feature, what it adds beside the refusal to start.
pub mod Base
pub mod Config
pub mod Valkey
pub mod Limiter
pub mod Protocol
pub mod Daemon
pub mod Control
pub mod Examples
pub mod UnitTests
