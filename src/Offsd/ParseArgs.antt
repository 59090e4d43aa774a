-- ===== src/Offsd/ParseArgs.antt =====
-- `_parse_args` as a whole, and the arguments that `_run_offsd` starts it with (src/offsd/main.c).
pub mod Ranges
pub mod Valid
pub mod Defaults
use offs.Base.{
  ℕ, ℤ, pos, negsuc, Bool, true, false, Option, none, some, List, [], ◌∷◌, ltb, ◌==◌, if◌then◌else◌,
  ◌>>=◌, Bytes, codes,
}
use offs.Json.{Json}
use offs.Offsd.Args.{OffsdArgs, ParseResult, parsed, shown_help, refused}
use offs.Offsd.Args.Flags.{parse_flags}
use offs.Offsd.ConfigFile.{parse_config}
use offs.Cli.Daemon.{local_socket_path}

-- What the machine answers: `sysconf(_SC_NPROCESSORS_ONLN)`, a file that is read and parsed, and
-- the default configuration file, where it is there and regular.
pub record Machine (Item : Type 0) : Type 0 where
  pub json : Json Item
  pub processors : ℤ
  pub read_json : Bytes → Option Item
  pub default_config : Option Bytes

-- _get_worker_count
unfoldable pub get_worker_count : ℤ → ℕ
get_worker_count (negsuc n) = 2
get_worker_count (pos n) =
    let nprocs = if ltb n 1 then 1 else n in if ltb nprocs 2 then 2 else nprocs

-- The two tests of worker_count behind the configuration file.
unfoldable pub settle_workers : ℤ → ℤ → ℤ
settle_workers processors (negsuc n) = pos 1
settle_workers processors (pos n) = if n == 0 then pos (get_worker_count processors) else pos n

abbrev default_to : Bytes → Option Bytes → Option Bytes
default_to s none = some s
default_to s (some v) = some v

-- The last two steps: the worker count, and the local socket's path.
unfoldable pub finish_args : ℤ → OffsdArgs → OffsdArgs
finish_args processors a = record a {
  worker_count = settle_workers processors a.worker_count;
  unix_path = default_to local_socket_path a.unix_path;
}

module _ {Item : Type 0} (m : Machine Item) where
  apply_config : Option Bytes → OffsdArgs → Option OffsdArgs
  apply_config none a = some a
  apply_config (some path) a = do root ← m.read_json path; parse_config m.json root a

  complete : Option OffsdArgs → ParseResult
  complete none = refused
  complete (some a) = parsed (finish_args m.processors a)

  -- What follows the loop over the flags.
  unfoldable pub after_flags : ParseResult → ParseResult
  unfolding apply_config complete
  after_flags (parsed a) = complete (apply_config a.config_path a)
  after_flags shown_help = shown_help
  after_flags refused = refused

  -- _parse_args; argv is without the program's name.
  unfoldable pub parse_args : List Bytes → OffsdArgs → ParseResult
  parse_args argv a = after_flags (parse_flags argv a)

  -- What `_run_offsd` sets before.
  unfoldable pub start_args : OffsdArgs
  start_args = record {
    config_path = m.default_config;
    host = some (codes "0.0.0.0");
    port = 23402;
    quic_port = 23401;
    unix_path = none;
    cache_dir = none;
    config_dir = none;
    pid_file = none;
    worker_count = pos 0;
    foreground = false;
    log_file = none;
    log_level_str = none;
    log_structured = false;
    metrics_server_url = none;
    ca_cert_path = none;
    node_cert_path = none;
    node_key_path = none;
    relay_url = none;
    max_capacity_bytes = 0;
    eabf_base_ttl_ms = 0;
    respiration_tau_min_ms = 0;
    respiration_tau_max_ms = 0;
    unix_socket_mode = 0;
    api_key = none;
    bootstrap_peers = none;
    ws_port = 0;
    wt_port = 0;
    wt_h3_port = 0;
    ws_cert_path = none;
    ws_key_path = none;
    wt_cert_path = none;
    wt_key_path = none;
    allow_secure = false;
  }
