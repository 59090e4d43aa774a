-- ===== src/Offsd/Life.antt =====
-- The parts of the running daemon: the owning pointers of `offsd_server_t` and of its embedded
-- configuration (src/offsd/main.c), the calls that make, start, stop and destroy them, and what is
-- alive after a sequence of such calls.
pub mod Steps
use offs.Base.{ℕ, Bool, true, false, not, ◌&&◌, List, [], ◌∷◌, Bytes, if◌then◌else◌}

-- The owned objects; `members` are the strings of the embedded configuration.
pub data Part : Type 0 where
  members pool timer authority block_cache ofd_cache tuple_cache http_server network : Part
  ws_transport wt_transport wt_h3_transport unix_transport update_actor : Part

-- Which pointers are not NULL, and whether the scheduler pool runs.
pub record Server : Type 0 where
  pub members : Bool
  pub pool : Bool
  pub running : Bool
  pub timer : Bool
  pub authority : Bool
  pub block_cache : Bool
  pub ofd_cache : Bool
  pub tuple_cache : Bool
  pub http_server : Bool
  pub network : Bool
  pub ws_transport : Bool
  pub wt_transport : Bool
  pub wt_h3_transport : Bool
  pub unix_transport : Bool
  pub update_actor : Bool

-- memset(server, 0, sizeof(*server))
abbrev pub no_server : Server
no_server = record {
  members = false;
  pool = false;
  running = false;
  timer = false;
  authority = false;
  block_cache = false;
  ofd_cache = false;
  tuple_cache = false;
  http_server = false;
  network = false;
  ws_transport = false;
  wt_transport = false;
  wt_h3_transport = false;
  unix_transport = false;
  update_actor = false;
}

abbrev pub get : Part → Server → Bool
get members s = s.members
get pool s = s.pool
get timer s = s.timer
get authority s = s.authority
get block_cache s = s.block_cache
get ofd_cache s = s.ofd_cache
get tuple_cache s = s.tuple_cache
get http_server s = s.http_server
get network s = s.network
get ws_transport s = s.ws_transport
get wt_transport s = s.wt_transport
get wt_h3_transport s = s.wt_h3_transport
get unix_transport s = s.unix_transport
get update_actor s = s.update_actor

abbrev pub set : Part → Bool → Server → Server
set members b s = record s { members = b }
set pool b s = record s { pool = b }
set timer b s = record s { timer = b }
set authority b s = record s { authority = b }
set block_cache b s = record s { block_cache = b }
set ofd_cache b s = record s { ofd_cache = b }
set tuple_cache b s = record s { tuple_cache = b }
set http_server b s = record s { http_server = b }
set network b s = record s { network = b }
set ws_transport b s = record s { ws_transport = b }
set wt_transport b s = record s { wt_transport = b }
set wt_h3_transport b s = record s { wt_h3_transport = b }
set unix_transport b s = record s { unix_transport = b }
set update_actor b s = record s { update_actor = b }

pub data Event : Type 0 where
  -- a create call and whether it returned an object
  created : Part → Bool → Event
  -- a start or listen call, and a stop call
  started stopped : Part → Event
  pool_started pool_stopped : Event
  -- a destroy call, and whether the pointer was not NULL
  destroyed : Part → Bool → Event
  -- mkdir_p of a directory
  made_dir : Bytes → Bool → Event
  -- authority_load_ca_cert
  loaded_ca : Bytes → Bool → Event
  -- pem_generate_self_signed_cert of a certificate and a key
  generated_cert : Bytes → Bytes → Bool → Event
  -- authority_set_bootstrap_peers
  seeded : Bytes → Bool → Event
  -- the routes, and whether the soft authentication is among them
  routed : Bool → Event
  -- authority_save_peers, authority_load_peers, network_shutdown_connections
  saved_peers loaded_peers closed_connections : Event
  -- the QUIC listener, the mDNS responder, the relay
  quic_started mdns_started : Bool → Event
  mdns_stopped : Event
  relay_connected : Bytes → ℕ → Bool → Event
  peer_book_started peer_book_stopped connections_started : Event
  -- the PID file
  wrote_pid : Bool → Event
  removed_pid : Event
  -- config_pending_mark_applied
  applied_pending : Event
  -- rm_rf
  removed_dir : Bytes → Bool → Event

-- The newest event first.
abbrev pub Trace : Type 0
Trace = List Event

abbrev pub apply : Event → Server → Server
apply (created part ok) s = set part ok s
apply (destroyed part present) s = set part false s
apply pool_started s = record s { running = true }
apply pool_stopped s = record s { running = false }
apply _ s = s

-- What is alive after the calls.
unfoldable pub live : Trace → Server
live [] = no_server
live (event ∷ trace) = apply event (live trace)

abbrev pub same_flag : Bool → Bool → Bool
same_flag true b = b
same_flag false b = not b

-- A call that the state allows: nothing is made twice, only a live part is started or stopped, a
-- pointer that is destroyed is NULL just when the part is not alive, the pool has stopped by then, and
-- the parts that a call uses are alive: the authority where peers or certificates are loaded or saved,
-- the network where it listens, connects or closes, and the HTTP server where routes are registered.
abbrev pub allowed : Event → Server → Bool
allowed (created part _) s = not (get part s)
allowed (destroyed pool present) s = same_flag present s.pool && not s.running
allowed (destroyed part present) s = same_flag present (get part s)
allowed (started part) s = get part s
allowed (stopped part) s = get part s
allowed pool_started s = s.pool && not s.running
allowed pool_stopped s = s.pool && s.running
allowed (loaded_ca path ok) s = s.authority
allowed (seeded peers ok) s = s.authority
allowed (routed soft) s = s.http_server && s.network
allowed saved_peers s = s.authority && s.network
allowed loaded_peers s = s.authority && s.network
allowed closed_connections s = s.network
allowed (quic_started ok) s = s.network
allowed (mdns_started ok) s = s.network
allowed mdns_stopped s = s.network
allowed (relay_connected host port ok) s = s.network
allowed peer_book_started s = s.network
allowed peer_book_stopped s = s.network
allowed connections_started s = s.network
allowed _ s = true

unfoldable pub safe : Trace → Bool
unfolding live
safe [] = true
safe (event ∷ trace) = allowed event (live trace) && safe trace

-- Nothing alive, the configuration's strings and the authority set aside.
abbrev pub is_released : Server → Bool
is_released s =
    not s.pool
    && not s.running
    && not s.timer
    && not s.block_cache
    && not s.ofd_cache
    && not s.tuple_cache
    && not s.http_server
    && not s.network
    && not s.ws_transport
    && not s.wt_transport
    && not s.wt_h3_transport
    && not s.unix_transport
    && not s.update_actor

-- Whether no live part holds the peer node, which points to the configuration and to most parts.
abbrev pub node_unused : Server → Bool
node_unused s =
    not s.http_server && not s.ws_transport && not s.wt_transport && not s.unix_transport

-- Whether no live part was given this one, when it was made or through the peer node.
abbrev pub unused : Part → Server → Bool
unused pool s =
    not s.timer
    && not s.block_cache
    && not s.ofd_cache
    && not s.tuple_cache
    && not s.http_server
    && not s.network
    && not s.ws_transport
    && not s.wt_transport
    && not s.wt_h3_transport
    && not s.unix_transport
    && not s.update_actor
unused timer s = not s.block_cache && not s.network && not s.update_actor && node_unused s
unused authority s = not s.block_cache && not s.network && node_unused s
unused block_cache s =
    not s.ofd_cache
    && not s.http_server
    && not s.network
    && not s.ws_transport
    && not s.wt_transport
    && not s.wt_h3_transport
    && not s.unix_transport
unused ofd_cache s =
    not s.http_server
    && not s.ws_transport
    && not s.wt_transport
    && not s.wt_h3_transport
    && not s.unix_transport
unused tuple_cache s =
    not s.http_server
    && not s.ws_transport
    && not s.wt_transport
    && not s.wt_h3_transport
    && not s.unix_transport
unused network s = node_unused s
unused http_server s = not s.ws_transport && not s.wt_transport && not s.unix_transport
unused members s = not s.authority && not s.network && node_unused s
unused _ s = true

-- Parts are destroyed only after all that was given them.
unfoldable pub in_order : Trace → Bool
unfolding live
in_order [] = true
in_order (destroyed part present ∷ trace) = unused part (live trace) && in_order trace
in_order (_ ∷ trace) = in_order trace

-- `if (server->part != NULL) part_destroy(server->part);`
abbrev pub destroy_if : Part → Server → Trace → Trace
destroy_if part s t = if get part s then destroyed part true ∷ t else t

-- The same with the call that stops the part.
abbrev pub stop_if : Part → Server → Trace → Trace
stop_if part s t = if get part s then stopped part ∷ t else t

abbrev pub start_if : Part → Server → Trace → Trace
start_if part s t = if get part s then started part ∷ t else t
