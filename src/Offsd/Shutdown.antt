-- ===== src/Offsd/Shutdown.antt =====
-- `_shutdown` (src/offsd/main.c), but for the watchdog that it arms, which is Offsd.Watchdog.
pub mod Order
use mathlib.Core.Path.{◌≡◌, refl}
use offs.Base.{Bool, true, false, not, ◌&&◌, Option, none, some, ◌∷◌, Bytes, if◌then◌else◌}
use offs.Offsd.Life.{
  Part, members, pool, timer, authority, block_cache, ofd_cache, tuple_cache, http_server, network,
  ws_transport, wt_transport, wt_h3_transport, unix_transport, update_actor, Server, get, set,
  pool_stopped, destroyed, saved_peers, closed_connections, mdns_stopped, peer_book_stopped,
  removed_pid, Trace, live, safe, in_order, destroy_if, stop_if, no_server,
}

-- `_remove_pid_file`
unfoldable pub remove_pid_file : Option Bytes → Trace → Trace
remove_pid_file none t = t
remove_pid_file (some path) t = removed_pid ∷ t

-- What stops while the network is there.
abbrev stop_network : Server → Trace → Trace
stop_network s t =
    if s.network then closed_connections ∷ saved_peers ∷ peer_book_stopped ∷ mdns_stopped ∷ t else t

-- The stop calls, the last being the scheduler pool's.
unfoldable pub quiesce : Server → Trace → Trace
quiesce s t =
    let transports =
      stop_if wt_h3_transport s
        (stop_if wt_transport s (stop_if ws_transport s (stop_if unix_transport s t))) in
    pool_stopped ∷ stop_if http_server s (stop_network s transports)

-- The destroy calls, config_free_members the last.
unfoldable pub destroy_all : Server → Trace → Trace
destroy_all s t =
    let transports =
      destroy_if wt_h3_transport s
        (destroy_if wt_transport s (destroy_if ws_transport s (destroy_if unix_transport s t))) in
    let served = destroy_if network s (destroy_if http_server s transports) in
    let caches =
      destroy_if block_cache s (destroy_if ofd_cache s (destroy_if tuple_cache s served)) in
    let actors = destroy_if timer s (destroy_if update_actor s caches) in
    destroyed members true ∷ destroy_if authority s (destroy_if pool s actors)

unfoldable pub shutdown : Server → Option Bytes → Trace → Trace
shutdown s pid_file t = remove_pid_file pid_file (destroy_all s (quiesce s t))
