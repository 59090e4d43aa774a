-- ===== src/Lib.antt =====
-- Verification library of OFFS: the command line client `offs` (src/offs), the daemon `offsd`
-- (src/offsd) and the metrics server `offs-metrics` (src/offs-metrics). The client talks to the
-- daemon over a local socket in frames of CBOR; it starts and stops the daemon, and moves its cache.
-- Daemons report to the metrics server over HTTP. Blocks, networks and encodings are the library
-- liboffs, which is not part of the repository: what the programs use of it is a parameter here.
--
-- Bytes are natural numbers, C strings are lists of bytes without the terminator, and integers are
-- natural numbers whose wrap-around is written out. The code is taken as it is compiled on POSIX, but for
-- the files that are for Windows alone;
-- allocation succeeds, and what is only printed is left out.
--
-- Base            shared names: tests on numbers, lists, C strings, strtol and its kin
-- Json            the accessors of cJSON as an interface
-- Cli.Paths       _normalize_path and cli_cache_paths_conflict of src/offs/cli_util.c. The result 0 of
--                 _normalize_path is `none`; `room` is what is left of the buffer.
-- Cli.Resolve     cli_cache_read_config_file_dirs, cli_cache_resolve_config_dir and
--                 cli_cache_resolve_current of src/offs/cli_util.c; snprintf's cut is `print_into`.
-- Cli.Host        the machine as a record of answers that may depend on all that has happened, and
--                 the monad of computations that extend the trace of events
-- Cli.Daemon      cmd_start, cmd_stop, cmd_restart (Restart), _probe_daemon_up and
--                 cli_daemon_wait_stopped of src/offs/commands/start_stop.c. The loops count their rounds of 100 ms, which is as
--                 many as the source's timeouts allow, so they need no other fuel.
-- Cli.Cache       src/offs/commands/cache.c: _parse_size_bytes (Size) and _cmd_cache_move (Move), each
--                 step of the latter a function on traces, named for what it does; _cmd_cache_size
--                 (Resize), _cmd_cache_gc (Gc) and cmd_cache (Command)
-- Cli.Calls       src/offs/commands: peer.c and friend.c (Peers), bootstrap.c, health.c and status.c
--                 (Node), block.c, pin.c and ephemeral.c (Blocks), each as the requests that it makes
--                 and its exit status
-- Cli.Tree        cli_cache_move_tree of src/offs/cli_util.c, over trees of entries
-- Cli.Hex         _hex_decode_hash of src/offs/commands/block.c, the hash column of
--                 src/offs/commands/ephemeral.c, _generate_random_api_key of src/offsd/main.c
-- Cli.Transfer    _send_all and _recv_all of src/offs/client.c. The socket's answers are a list; where
--                 it ends the result is `pending`, and theorems say when it is `completed`.
-- Cli.Client      the client object of src/offs/client.c: cli_client_connect, _send_frame,
--                 _recv_frame, _send
-- Cli.Put         src/offs/commands/put.c: the flags, the base name, and the loop over the chunks,
--                 whose rounds are a list of what fread and the sending do; Cli.Put.Command is
--                 the whole command, with a session that answers for files and connection
-- Cli.Streams     src/offs/commands/get.c and load.c: the loops over the frames of the daemon
-- Cli.Config      src/offs/commands/config.c: the subcommands as functions to a status and the field and
--                 value that are sent
-- Cli.Main        src/offs/main.c: the options that are lifted, the table of src/offs/cli_util.c, and
--                 the dispatch
-- Offsd           src/offsd/main.c: the arguments (Args), the configuration file (ConfigFile) and both
--                 together with the defaults (ParseArgs); `none` and `refused` are `return -1`
-- Offsd.Life      the owned parts of offsd_server_t, the trace of calls on them, what is alive after a
--                 trace, and which calls that allows
-- Offsd.Startup   _startup: the configuration and certificates, the failure paths' lists (Lists), the
--                 stages (Stages), the last one first, since each tells the next what has been made
-- Offsd.Listen, Offsd.Shutdown, Offsd.Loop
--                 _start_listening, _shutdown and the cycles of _run_offsd. What happens in a cycle is
--                 an element of a list, so the loop needs no fuel; where the list ends the result is
--                 `waiting`, and a theorem says when it is `exited`.
-- Offsd.Flags     the flags that the main loop shares with _signal_handler, _request_restart and the
--                 handler of the Windows service: a step relation on them, a constructor for each
--                 step of a thread, and the reachable states
-- Offsd.Watchdog  _shutdown_watchdog_thread against _shutdown, as a step relation with time in
--                 milliseconds
-- Offsd.Run       _run_offsd as a whole, with _run_uninstall (Uninstall) and _daemonize (Daemonize)
-- Offsd.Auth      _soft_auth_handler and _signal_handler
-- Metrics         src/offs-metrics/metrics_server.c: the table of nodes, the handler of reports, and
--                 the totals of /metrics; /status (Status), and the program (Server)
-- Service         src/Service: service_linux.c (Linux), service_macos.c (Macos), service_windows.c
--                 (Windows) and daemon_service_windows.c (Dispatcher), each operation by the commands
--                 or calls that it makes; a wait has as many rounds as its time allows, so the loops
--                 need no fuel
-- Updater         src/Updater/updater_main.c: main as the steps it takes, and _copy_file (Copy), whose
--                 loop has a round more than the file has bytes; on systemd its services are those
--                 of Service.Linux (OnLinux)
-- Tests           the theorems at concrete inputs
--
-- The client's commands use Cli.Client for frames; Cli.Cache.Move uses Cli.Resolve, Cli.Paths and
-- Cli.Daemon, as the source does. The daemon's configuration file and that of Cli.Resolve are read
-- through the same interface.
--
-- Cli.Cache.Move takes the move of the tree as one event with its result; Cli.Tree is that move.
--
-- Not modelled: texts, minidumps, the updater as it is compiled on Windows, and floating-point values
-- of the metrics.
pub mod Base
pub mod Cli
pub mod Json
pub mod Offsd
pub mod Metrics
pub mod Service
pub mod Updater
pub mod Tests
