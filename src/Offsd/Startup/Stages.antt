-- ===== src/Offsd/Startup/Stages.antt =====
-- `_startup` (src/offsd/main.c), stage by stage, the last stage first. Each stage tells what has
-- been made to the next, and a failure destroys the parts that its list names.
use offs.Base.{is_none, Bool, true, false, Option, none, some, ◌∷◌, ◌==◌, Bytes}
use offs.Offsd.Args.{OffsdArgs}
use offs.Offsd.Life.{
  Part, members, pool, timer, authority, block_cache, ofd_cache, tuple_cache, http_server, network,
  ws_transport, wt_transport, wt_h3_transport, unix_transport, update_actor, Server, no_server, set,
  created, pool_started, made_dir, loaded_ca, seeded, routed, Trace, destroy_if,
}
use offs.Offsd.Startup.Lists.{
  release_caches, release_base, release_authority, release_network, release_ws, release_wt,
  release_transports, release_before_authority, release_block,
}
use offs.Offsd.Startup.{
  Config, Outside, settle_config, choose_cert, Copy, cert_copy, key_copy, auth_copy,
}

pub data Attempt : Type 0 where
  booted : Config → OffsdArgs → Server → Trace → Attempt
  failed : Trace → Attempt

-- What is left of the start, given the configuration, the arguments and what has been made.
abbrev pub Stage : Type 0
Stage = Config → OffsdArgs → Server → Trace → Attempt

-- One of two ways to go on.
unfoldable pub either : Bool → Stage → Stage → Stage
either true first second = first
either false first second = second

-- Whether the create call of a part returned an object: what follows, and what a failure releases.
unfoldable pub made : Bool → Part → (Server → Trace → Trace) → Stage → Stage
made true part release next c a s t = next c a (set part true s) (created part true ∷ t)
made false part release next c a s t = failed (release s (created part false ∷ t))

-- What is alive before the start: the override's strings, if there is one.
abbrev pub override_server : Option Config → Server
override_server none = no_server
override_server (some c) = set members true no_server

module _ (O : Outside) where
  -- The update actor, whose result is not looked at.
  unfoldable pub start_updates : Stage
  start_updates c a s t =
      let made = O.creates update_actor in
      booted c a (set update_actor made s) (created update_actor made ∷ t)

  unfoldable pub start_unix : Stage
  start_unix c a =
      either (is_none a.unix_path) start_updates
        (made (O.creates unix_transport) unix_transport release_transports start_updates) c a

  unfoldable pub start_wt_h3 : Stage
  start_wt_h3 c a =
      either (a.wt_h3_port == 0) start_unix
        (made (O.creates wt_h3_transport) wt_h3_transport release_wt start_unix) c a

  unfoldable pub start_wt : Stage
  start_wt c a =
      either (a.wt_port == 0) start_wt_h3
        (made (O.creates wt_transport) wt_transport release_ws start_wt_h3) c a

  unfoldable pub start_ws : Stage
  start_ws c a =
      either (a.ws_port == 0) start_wt
        (made (O.creates ws_transport) ws_transport release_network start_wt) c a

  -- The routes of the HTTP server, if there is one.
  unfoldable pub route : Bool → Trace → Trace
  route true t = routed (O.copies auth_copy) ∷ t
  route false t = t

  unfoldable pub register_routes : Stage
  register_routes c a s t = start_ws c a s (route s.http_server t)

  unfoldable pub start_network : Stage
  start_network = made (O.creates network) network release_authority register_routes

  -- authority_set_bootstrap_peers, whose failure is only reported.
  unfoldable pub seed_bootstrap : Option Bytes → Trace → Trace
  seed_bootstrap none t = t
  seed_bootstrap (some peers) t = seeded peers (O.seed_bootstrap peers) ∷ t

  -- The copy of a path, which a NULL path does not need.
  abbrev pub copied : Copy → Option Bytes → Bool
  copied copy none = true
  copied copy (some path) = O.copies copy

  unfoldable pub copy_key : Stage
  copy_key c a s t =
      either (copied key_copy a.node_key_path)
        (λ c a s t. start_network c a s (seed_bootstrap c.bootstrap_peers t))
        (λ c a s t. failed (release_authority s t)) c a s t

  unfoldable pub copy_cert : Stage
  copy_cert c a =
      either (copied cert_copy a.node_cert_path) copy_key
        (λ c a s t. failed (release_authority s t)) c a

  unfoldable pub settle_cert : Stage
  settle_cert c a s t =
      let (adopted, longer) = choose_cert O a.node_cert_path a.node_key_path a t in
      copy_cert c adopted s longer

  -- The result of authority_load_ca_cert.
  unfoldable pub loaded : Bool → Bytes → Stage
  loaded true path c a s t = settle_cert c a s (loaded_ca path true ∷ t)
  loaded false path c a s t = failed (release_authority s (loaded_ca path false ∷ t))

  unfoldable pub load_ca : Option Bytes → Stage
  load_ca none c a s t = settle_cert c a s t
  load_ca (some path) c a s t = loaded (O.load_ca_cert path) path c a s t

  -- load_ca with the path of the arguments.
  unfoldable pub load_tls : Stage
  load_tls c a s t = load_ca a.ca_cert_path c a s t

  unfoldable pub start_http : Stage
  start_http c a =
      either (a.port == 0) load_tls
        (made (O.creates http_server) http_server release_caches load_tls) c a

  -- The two caches over the block cache, whose results are not looked at.
  unfoldable pub start_caches : Stage
  start_caches c a s t =
      let ofd = O.creates ofd_cache in
      let tuple = O.creates tuple_cache in
      start_http c a (set tuple_cache tuple (set ofd_cache ofd s))
        (created tuple_cache tuple ∷ created ofd_cache ofd ∷ t)

  unfoldable pub start_block : Stage
  start_block = made (O.creates block_cache) block_cache release_block start_caches

  unfoldable pub start_authority : Stage
  start_authority = made (O.creates authority) authority release_before_authority start_block

  -- From the settled configuration on.
  unfoldable pub start_configured : Option Config → OffsdArgs → Server → Trace → Attempt
  start_configured none a s t = failed (release_base s t)
  start_configured (some c) a s t = start_authority c a s t

  -- The configuration is accepted: the override, whose strings exist already, or the defaults.
  unfoldable pub accept_config : Option Config → OffsdArgs → Server → Trace → Attempt
  accept_config (some c) a s t = start_configured (settle_config O a c) a s t
  accept_config none a s t =
      start_configured (settle_config O a O.config_default) a (set members true s)
        (created members true ∷ t)

  -- From the result of scheduler_pool_create on: the pool is started, and the timer made, whose
  -- result is not looked at.
  unfoldable pub pool_made : Bool → Option Config → OffsdArgs → Server → Trace → Attempt
  pool_made true override a s t =
      let made_timer = O.creates timer in
      accept_config override a (set timer made_timer (record s { pool = true; running = true }))
        (created timer made_timer ∷ pool_started ∷ created pool true ∷ t)
  pool_made false override a s t = failed (destroy_if members s (created pool false ∷ t))

  unfoldable pub start_pool : Option Config → OffsdArgs → Server → Trace → Attempt
  start_pool override a s t = pool_made (O.creates pool) override a s t

  -- The result of mkdir_p, with what follows; a failure frees the override.
  unfoldable pub dir_made : Bool → Bytes → (Server → Trace → Attempt) → Server → Trace → Attempt
  dir_made true dir next s t = next s (made_dir dir true ∷ t)
  dir_made false dir next s t = failed (destroy_if members s (made_dir dir false ∷ t))

  -- A directory that is named is made before the rest.
  unfoldable pub with_dir : Option Bytes → (Server → Trace → Attempt) → Server → Trace → Attempt
  with_dir none next s t = next s t
  with_dir (some dir) next s t = dir_made (O.mkdir dir) dir next s t

  unfoldable pub make_config_dir : Option Config → OffsdArgs → Server → Trace → Attempt
  make_config_dir override a s t = with_dir a.config_dir (start_pool override a) s t

  -- The server's memory is cleared at the start.
  unfoldable pub startup : Option Config → OffsdArgs → Trace → Attempt
  startup override a t =
      with_dir a.cache_dir (make_config_dir override a) (override_server override) t
