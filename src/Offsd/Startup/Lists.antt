-- ===== src/Offsd/Startup/Lists.antt =====
-- The lists of destroy calls on the failure paths of `_startup` (src/offsd/main.c).
use offs.Base.{◌∷◌}
use offs.Offsd.Life.{
  timer, pool, authority, block_cache, ofd_cache, tuple_cache, http_server, network, ws_transport,
  wt_transport, wt_h3_transport, Server, destroyed, pool_stopped, saved_peers, Trace, destroy_if,
}

-- `timer_actor_destroy`, `scheduler_pool_stop`, `scheduler_pool_destroy`
unfoldable pub release_base : Server → Trace → Trace
release_base s t = destroyed pool s.pool ∷ pool_stopped ∷ destroyed timer s.timer ∷ t

-- From `tuple_cache_destroy` on.
unfoldable pub release_caches : Server → Trace → Trace
release_caches s t = release_base s (
    destroyed block_cache s.block_cache
    ∷ destroyed ofd_cache s.ofd_cache
    ∷ destroyed tuple_cache s.tuple_cache
    ∷ t)

-- From `authority_destroy` on.
unfoldable pub release_authority : Server → Trace → Trace
release_authority s t =
    release_caches s (destroy_if http_server s (destroyed authority s.authority ∷ t))

-- From `authority_save_peers` on.
unfoldable pub release_network : Server → Trace → Trace
release_network s t = release_authority s (destroyed network s.network ∷ saved_peers ∷ t)

-- The lists of a failed transport: WebSocket, WebTransport, HTTP/3, Unix.
unfoldable pub release_ws : Server → Trace → Trace
release_ws s t = release_network s (destroy_if ws_transport s t)

unfoldable pub release_wt : Server → Trace → Trace
release_wt s t = release_ws s (destroy_if wt_transport s t)

unfoldable pub release_transports : Server → Trace → Trace
release_transports s t = release_ws s (destroy_if wt_h3_transport s (destroy_if wt_transport s t))

-- The failed authority's list, where all but the first three are NULL.
unfoldable pub release_before_authority : Server → Trace → Trace
release_before_authority s t = release_base s (
    destroyed ofd_cache s.ofd_cache
    ∷ destroyed tuple_cache s.tuple_cache
    ∷ destroy_if http_server s t)

-- The failed block cache's list.
unfoldable pub release_block : Server → Trace → Trace
release_block s t = release_base s (destroyed authority s.authority ∷ t)
