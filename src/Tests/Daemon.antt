-- ===== src/Tests/Daemon.antt =====
-- The daemon's arguments, its restart, its directories, and a move of the cache.
use offs.Base.{
  pos, Bool, true, false, Option, none, some, List, [], ◌∷◌, str_eq, Bytes, codes, ◌≡◌, refl, arith,
  if◌then◌else◌,
}
use offs.Json.{Json}
use offs.Offsd.Args.{OffsdArgs, ParseResult, parsed}
use offs.Offsd.Args.Flags.{parse_flags}
use offs.Offsd.ConfigFile.{parse_config}
use offs.Offsd.ConfigFile.Precedence.{TextField, relay_url, get, get-parse_config}
use offs.Offsd.ParseArgs.{Machine, parse_args, start_args}
use offs.Offsd.ParseArgs.Valid.{IsReady, parse_args-IsReady}
use offs.Cli.Daemon.Restart.Preserved.{join_words}
use offs.Cli.Host.{Host, Trace, directory, empty, nonempty}
use offs.Cli.Resolve.{Platform}
use offs.Cli.Daemon.Restart.{Manager, cmd_restart}
use offs.Cli.Daemon.Restart.Started.{newest_start, IsWithout, cmd_restart_preserves}
use offs.Cli.Cache.Move.{parse_move, no_options, cmd_cache_move}
use offs.Cli.Cache.Move.Effects.{view, IsSettled}
use offs.Cli.Cache.Move.Settled.{config_in, cmd_cache_move-IsSettled}

-- A file in which every section and field is there, but for the socket's mode, and every field is
-- a text, its own name.
abbrev pub json : Json Bytes
json = record {
  get = λ section key. if str_eq key (codes "unix-socket-mode") then none else some key;
  text = λ value. some value;
  int = λ value. none;
  uint32 = λ value. none;
  size = λ value. none;
  flag = λ value. none;
}

abbrev pub machine : Machine Bytes
machine = record {
  json = json;
  processors = pos 4;
  read_json = λ path. some path;
  default_config = some (codes "offsd.json");
}

abbrev pub start : OffsdArgs
start = start_args machine

abbrev argv : List Bytes
argv = codes "--port" ∷ codes "9000" ∷ codes "--foreground" ∷ []

abbrev or_start : ParseResult → OffsdArgs
or_start (parsed a) = a
or_start _ = start

abbrev flagged : OffsdArgs
flagged = or_start (parse_flags argv start)

abbrev final : OffsdArgs
final = or_start (parse_args machine argv start)

abbrev filled : Option OffsdArgs → OffsdArgs
filled none = start
filled (some a) = a

get-parse_config_example :
    get relay_url (filled (parse_config json (codes "root") start)) ≡ some (codes "relay-url")
unfolding start_args parse_config offs.Offsd.ConfigFile.fill_eabf offs.Offsd.ConfigFile.fill_network
    offs.Offsd.ConfigFile.fill_daemon str_eq codes offs.Offsd.ConfigFile.fill_tau
    offs.Offsd.ConfigFile.fill_mode offs.Offsd.ConfigFile.Precedence.location
get-parse_config_example =
    get-parse_config json (codes "root") relay_url start
      (filled (parse_config json (codes "root") start)) refl

parse_args-IsReady_example : IsReady final
unfolding parse_args offs.Offsd.ParseArgs.after_flags parse_flags offs.Offsd.Args.Flags.word_of
    str_eq codes offs.Offsd.Args.Flags.apply_value offs.Offsd.Args.Flags.apply_plain start_args
    parse_config offs.Offsd.ConfigFile.fill_eabf offs.Offsd.ConfigFile.fill_network
    offs.Offsd.ConfigFile.fill_daemon offs.Offsd.ConfigFile.fill_tau offs.Offsd.ConfigFile.fill_mode
parse_args-IsReady_example = parse_args-IsReady machine argv final refl

abbrev pub platform : Platform Bytes
platform = record {
  json = json;
  default_config_path = none;
  read_json = λ path. some path;
  default_config_dir = some (codes "/etc/offs");
  default_cache_dir = some (codes "/var/offs");
  pending_cache_dir = λ dir. none;
}

-- The daemon is down, the cache has files, the destination is there and empty, and the files
-- cannot be moved.
abbrev pub host : Host
host = record {
  running = λ t. false;
  signal = λ t. true;
  spawn = λ t argv. true;
  probe = λ t path. true;
  kind = λ t path. directory;
  contents = λ t path. if str_eq path (codes "/new") then empty else nonempty;
  mkdir = λ t path. true;
  stage = λ t dir field value. true;
  stage_number = λ t dir field value. true;
  move = λ t src dest mode. false;
  remove = λ t path. true;
  cwd = some (codes "/home");
}

cmd_cache_move-IsSettled_example :
    IsSettled
      (config_in host platform (parse_move (codes "/new" ∷ []) no_options))
      (cmd_cache_move host platform (codes "/new" ∷ []) []).0
      (view (cmd_cache_move host platform (codes "/new" ∷ []) []).1)
cmd_cache_move-IsSettled_example = cmd_cache_move-IsSettled host platform (codes "/new" ∷ [])

abbrev is_nil : Trace → Bool
is_nil [] = true
is_nil (e ∷ t) = false

-- The daemon runs up to the signal.
abbrev stopping : Host
stopping = record host { running = λ t. is_nil t }

abbrev unmanaged : Manager
unmanaged = record {
  system = λ command. false;
  cmdline =
      some (join_words (codes "offsd" ∷ codes "--foreground" ∷ codes "--port" ∷ codes "9" ∷ []));
}

cmd_restart_preserves_example :
    (argv : List Bytes) × IsWithout (codes "--foreground" ∷ codes "--port" ∷ codes "9" ∷ []) argv
    × (newest_start (cmd_restart stopping unmanaged [] []).1 ≡ some argv)
unfolding offs.Cli.Daemon.Restart.is_service_managed codes str_eq offs.Cli.Daemon.cmd_stop
    offs.Cli.Daemon.daemon_is_running offs.Cli.Daemon.wait_stopped
cmd_restart_preserves_example =
    cmd_restart_preserves stopping unmanaged (codes "offsd")
      (codes "--foreground" ∷ codes "--port" ∷ codes "9" ∷ []) [] refl refl refl (omega arith) refl
      refl refl
