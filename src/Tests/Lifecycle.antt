-- ===== src/Tests/Lifecycle.antt =====
-- The daemon's life on concrete machines.
use offs.Base.{
  ℕ, Bool, true, false, not, none, some, [], ◌∷◌, Bytes, codes, str_eq, ◌≡◌, ◌≢◌, refl, ◌++◌, ◌↔◌,
  ◌<◌, arith, all,
}
use offs.Offsd.Args.{OffsdArgs}
use offs.Offsd.Life.{
  Part, members, pool, timer, authority, network, http_server, ws_transport, Server, no_server,
  created, pool_started, Trace, live, safe, in_order,
}
use offs.Offsd.Shutdown.{shutdown}
use offs.Offsd.Shutdown.Order.{shutdown-live}
use offs.Offsd.Startup.{Config, Outside}
use offs.Offsd.Startup.Stages.{startup}
use offs.Offsd.Startup.Release.{Owned}
use offs.Offsd.Startup.Ends.{startup-Owned}
use offs.Offsd.Listen.{Net}
use offs.Offsd.Loop.{Poll, Cycle, run_cycles}
use offs.Offsd.Loop.Exits.{Ended}
use offs.Offsd.Loop.Liveness.{
  signalled, told_to_restart, now, afterwards, last, restarts, has_exited, run_cycles-has_exited,
}
use offs.Offsd.Uninstall.{Disk, run_uninstall}
use offs.Offsd.Uninstall.Chosen.{is_chosen, run_uninstall-is_chosen}
use offs.Offsd.Auth.{soft_auth_handler, soft_auth_handler_iff}
use offs.Offsd.Daemonize.{inherited, Table, child, System, Daemonized, daemonize}
use offs.Offsd.Run.{World, run_offsd}
use offs.Offsd.Run.Ends.{run_offsd-Ended}
use offs.Tests.Daemon.{machine, start}

abbrev config : Config
config = record {
  max_capacity_bytes = 1000;
  eabf_base_ttl_ms = 1;
  respiration_tau_min_ms = 1;
  respiration_tau_max_ms = 2;
  bootstrap_peers = none;
  api_key_hash = none;
  cache_dir = some (codes "/mnt");
}

-- All parts are made but the one that the test names.
abbrev made_unless : (Part → Bool) → Outside
made_unless fails = record {
  mkdir = λ dir. true;
  creates = λ part. not (fails part);
  copies = λ copy. true;
  config_default = config;
  random = some [];
  bcrypt_generate = λ key. some key;
  load_ca_cert = λ path. true;
  path_join = λ dir name. some (dir ++ name);
  exists = λ path. false;
  generate_cert = λ cert key. true;
  seed_bootstrap = λ peers. true;
}

abbrev is_ws : Part → Bool
is_ws ws_transport = true
is_ws _ = false

abbrev is_never : Part → Bool
is_never _ = false

abbrev args : OffsdArgs
args = record start {
  config_dir = some (codes "/etc");
  cache_dir = some (codes "/var");
  ws_port = 8080;
  pid_file = some (codes "/run/offsd");
  api_key = some (codes "key");
}

-- A start whose WebSocket transport cannot be made, and one that succeeds.
startup-Owned_example : Owned true (startup (made_unless is_ws) none args [])
unfolding live safe offs.Offsd.ParseArgs.start_args
startup-Owned_example = startup-Owned (made_unless is_ws) none args [] refl refl

-- A server of a few parts.
abbrev small_trace : Trace
small_trace =
    created http_server true
    ∷ created network true
    ∷ created authority true
    ∷ created members true
    ∷ created timer true
    ∷ pool_started
    ∷ created pool true
    ∷ []

abbrev small : Server
small = record no_server {
  members = true;
  pool = true;
  running = true;
  timer = true;
  authority = true;
  network = true;
  http_server = true;
}

shutdown-live_example :
    (live (shutdown small none small_trace) ≡ no_server)
    × (safe (shutdown small none small_trace) ≡ true)
    × (in_order (shutdown small none small_trace) ≡ in_order small_trace)
unfolding live safe
shutdown-live_example = shutdown-live small none small_trace refl refl refl refl

abbrev net : Net
net = record {
  quic_listener = true;
  peer_book = true;
  quic_start = true;
  mdns_start = false;
  endpoint_parse = λ url. some (url, 4000);
  connect_relay = λ host port. true;
}

abbrev poll : Bool → Bool → Poll
poll running restart = record {
  running = running;
  stop_requested = false;
  restart_requested = restart;
}

-- A cycle that ends with a requested restart, or at a signal.
abbrev cycle : Bool → Cycle
cycle restart = record {
  outside = made_unless is_never;
  net = net;
  pid_ok = true;
  polls = poll true false ∷ poll restart restart ∷ [];
  restart_after = restart;
  pending_exists = true;
  pending = some config;
}

run_cycles-has_exited_example :
    has_exited (run_cycles none args (cycle true ∷ cycle false ∷ []) []) ≡ true
run_cycles-has_exited_example = run_cycles-has_exited (cycle true ∷ cycle false ∷ []) none args [] (
    restarts (afterwards (now (told_to_restart refl)))
      (last (afterwards (now (signalled refl))) refl))

abbrev disk : Disk
disk = record {
  is_there = λ t dir. true;
  rm_rf = λ t dir. str_eq dir (codes "/c");
  default_dirs = some (codes "/e", codes "/c");
}

run_uninstall-is_chosen_example :
    all
      (is_chosen (codes "--cache" ∷ []) (codes "/e") (codes "/c"))
      (run_uninstall disk (codes "--cache" ∷ []) []).1
    ≡ true
run_uninstall-is_chosen_example =
    run_uninstall-is_chosen disk (codes "--cache" ∷ []) (codes "/e") (codes "/c") refl

soft_auth_handler_iff_example :
    (soft_auth_handler str_eq (some (codes "abc")) (some (codes "Bearer abc")) false ≡ true) ↔ (
      (token : Bytes) × (codes "Bearer abc" ≡ codes "Bearer " ++ token)
      × (token ≢ [])
      × (str_eq token (codes "abc") ≡ true))
soft_auth_handler_iff_example = soft_auth_handler_iff str_eq (codes "abc") (codes "Bearer abc")

abbrev system : ℕ → System
system dev_null = record {
  first_fork = child;
  setsid = true;
  second_fork = child;
  chdir = true;
  open_null = some dev_null;
  open_log = some 4;
}

abbrev table : Table
table fd = inherited

abbrev daemon_table : ℕ → Table
daemon_table dev_null =
    elim (daemonize (system dev_null) (some (codes "log")) table) as (λ _. Table) [
      | Daemonized.left ↦ table
      | Daemonized.refused ↦ table
      | Daemonized.detached new ↦ new
    ]

-- The log's descriptor is 4.
log_apart : (l : ℕ) → some 4 ≡ some l → (2 < l) × (l ≢ 3)
log_apart l e = ground arith

abbrev world : World Bytes
world = record {
  machine = machine;
  disk = disk;
  system = system 3;
  descriptors = table;
  pending_exists = true;
  pending = some config;
  cycles = cycle true ∷ cycle false ∷ [];
}

run_offsd-Ended_example : Ended (run_offsd world (codes "--foreground" ∷ []))
run_offsd-Ended_example = run_offsd-Ended world (codes "--foreground" ∷ [])
