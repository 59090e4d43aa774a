-- ===== src/Offsd/Startup/Release.antt =====
-- What the lists of destroy calls in `_startup` (src/offsd/main.c) leave alive.
use offs.Base.{Bool, true, false, not, ◌&&◌, ◌||◌, ◌≡◌, refl, arith}
use offs.Offsd.Life.{
  pool, timer, authority, block_cache, ofd_cache, tuple_cache, http_server, network, ws_transport,
  wt_transport, wt_h3_transport, Server, pool_stopped, saved_peers, Trace, live, safe, is_released,
}
use offs.Offsd.Life.Steps.{Leaves, leaves, call-Leaves, destroy-Leaves, destroy_if-Leaves}
use offs.Offsd.Startup.Stages.{Attempt, booted, failed}
use offs.Offsd.Startup.Lists.{
  release_base, release_caches, release_authority, release_network, release_ws, release_wt,
  release_transports, release_before_authority, release_block,
}

abbrev pub is_up : Server → Bool
is_up s = s.members && s.pool && s.running

-- Up, with the authority; and with the network too.
abbrev pub is_ruled : Server → Bool
is_ruled s = s.authority && is_up s

abbrev pub is_serving : Server → Bool
is_serving s = s.network && is_ruled s

pub ruled-up : (s : Server) → is_ruled s ≡ true → is_up s ≡ true
ruled-up s h = ground arith

pub serving-up : (s : Server) → is_serving s ≡ true → is_up s ≡ true
serving-up s h = ground arith

-- The end of a start. A server that is up has just the parts that its pointers name,
-- among them the authority and the network, and a failed
-- start has nothing left but the configuration's strings and, where `may_leak` says so, the
-- authority. All calls up to there were allowed.
unfoldable pub Owned : Bool → Attempt → Type 0
Owned may_leak (booted c a s t) = (live t ≡ s) × (safe t ≡ true) × (is_serving s ≡ true)
Owned may_leak (failed t) =
    (is_released (live t) ≡ true) × (safe t ≡ true) × (may_leak || not (live t).authority ≡ true)

pub data Clean : Bool → Attempt → Type 0 where
  clean : {may_leak : Bool} {end : Attempt} → Owned may_leak end → Clean may_leak end

pub Owned-Clean : {may_leak : Bool} {end : Attempt} → Clean may_leak end → Owned may_leak end
Owned-Clean (clean owned) = owned

-- Which parts have not been made before a stage.
abbrev pub lacks_updates : Server → Bool
lacks_updates s = not s.update_actor

abbrev pub lacks_unix : Server → Bool
lacks_unix s = not s.unix_transport && lacks_updates s

abbrev pub lacks_wt_h3 : Server → Bool
lacks_wt_h3 s = not s.wt_h3_transport && lacks_unix s

abbrev pub lacks_wt : Server → Bool
lacks_wt s = not s.wt_transport && lacks_wt_h3 s

abbrev pub lacks_ws : Server → Bool
lacks_ws s = not s.ws_transport && lacks_wt s

abbrev pub lacks_network : Server → Bool
lacks_network s = not s.network && lacks_ws s

abbrev pub lacks_http : Server → Bool
lacks_http s = not s.http_server && lacks_network s

abbrev pub lacks_caches : Server → Bool
lacks_caches s = not s.ofd_cache && not s.tuple_cache && lacks_http s

abbrev pub lacks_block : Server → Bool
lacks_block s = not s.block_cache && lacks_caches s

abbrev pub lacks_authority : Server → Bool
lacks_authority s = not s.authority && lacks_block s

abbrev pub lacks_pool : Server → Bool
lacks_pool s = not s.pool && not s.running && not s.timer && lacks_authority s

pub failed-Clean :
    (may_leak : Bool) (s : Server) {t : Trace}
    → is_released s ≡ true
    → (may_leak || not s.authority) ≡ true
    → Leaves s t
    → Clean may_leak (failed t)
unfolding Owned
failed-Clean may_leak s empty ok (leaves alive fine) = clean (rw alive empty, fine, rw alive ok)

release_base-Leaves :
    (from : Server) {s : Server} {t : Trace}
    → from.pool ≡ s.pool
    → from.timer ≡ s.timer
    → s.pool ≡ true
    → s.running ≡ true
    → Leaves s t
    → Leaves (record s { pool = false; running = false; timer = false }) (release_base from t)
unfolding release_base
release_base-Leaves from same_pool same_timer has_pool runs so_far =
    destroy-Leaves pool from.pool same_pool refl (
      call-Leaves pool_stopped (rw has_pool runs)
        (destroy-Leaves timer from.timer same_timer refl so_far))

release_caches-Leaves :
    (from : Server) {s : Server} {t : Trace}
    → from.pool ≡ s.pool
    → from.timer ≡ s.timer
    → from.block_cache ≡ s.block_cache
    → from.ofd_cache ≡ s.ofd_cache
    → from.tuple_cache ≡ s.tuple_cache
    → s.pool ≡ true
    → s.running ≡ true
    → Leaves s t
    → Leaves
        (record s {
          pool = false;
          running = false;
          timer = false;
          block_cache = false;
          ofd_cache = false;
          tuple_cache = false;
        })
        (release_caches from t)
unfolding release_caches
release_caches-Leaves from same_pool same_timer same_block same_ofd same_tuple has_pool runs
      so_far =
    release_base-Leaves from same_pool same_timer has_pool runs (
      destroy-Leaves block_cache from.block_cache same_block refl (
        destroy-Leaves ofd_cache from.ofd_cache same_ofd refl
          (destroy-Leaves tuple_cache from.tuple_cache same_tuple refl so_far)))

-- The parts from the authority on that are destroyed first; what is above them is left as it is.
abbrev without_authority : Server → Server
without_authority s = record s {
  pool = false;
  running = false;
  timer = false;
  block_cache = false;
  ofd_cache = false;
  tuple_cache = false;
  http_server = false;
  authority = false;
}

release_authority-Leaves :
    (from : Server) {s : Server} {t : Trace}
    → from.pool ≡ s.pool
    → from.timer ≡ s.timer
    → from.block_cache ≡ s.block_cache
    → from.ofd_cache ≡ s.ofd_cache
    → from.tuple_cache ≡ s.tuple_cache
    → from.http_server ≡ s.http_server
    → from.authority ≡ s.authority
    → s.pool ≡ true
    → s.running ≡ true
    → Leaves s t
    → Leaves (without_authority s) (release_authority from t)
unfolding release_authority
release_authority-Leaves from same_pool same_timer same_block same_ofd same_tuple same_http
      same_authority has_pool runs so_far =
    release_caches-Leaves from same_pool same_timer same_block same_ofd same_tuple has_pool runs (
      destroy_if-Leaves http_server from same_http refl
        (destroy-Leaves authority from.authority same_authority refl so_far))

module _ {s : Server} {t : Trace} (up : is_up s ≡ true) (so_far : Leaves s t) where
  has_pool : s.pool ≡ true
  has_pool = ground arith

  runs : s.running ≡ true
  runs = ground arith

  pub release_base-Clean : lacks_authority s ≡ true → Clean false (failed (release_base s t))
  release_base-Clean lacks =
      failed-Clean false _ (ground arith) (ground arith)
        (release_base-Leaves s refl refl has_pool runs so_far)

  pub release_before_authority-Clean :
      lacks_authority s ≡ true → Clean false (failed (release_before_authority s t))
  unfolding release_before_authority
  release_before_authority-Clean lacks = failed-Clean false _ (ground arith) (ground arith) (
      release_base-Leaves s refl refl has_pool runs (
        destroy-Leaves ofd_cache s.ofd_cache refl refl (
          destroy-Leaves tuple_cache s.tuple_cache refl refl
            (destroy_if-Leaves http_server s refl refl so_far))))

  pub release_block-Clean : lacks_block s ≡ true → Clean false (failed (release_block s t))
  unfolding release_block
  release_block-Clean lacks = failed-Clean false _ (ground arith) (ground arith) (
      release_base-Leaves s refl refl has_pool runs
        (destroy-Leaves authority s.authority refl refl so_far))

  pub release_caches-Clean : lacks_http s ≡ true → Clean true (failed (release_caches s t))
  release_caches-Clean lacks =
      failed-Clean true _ (ground arith) refl
        (release_caches-Leaves s refl refl refl refl refl has_pool runs so_far)

  pub release_authority-Clean :
      lacks_network s ≡ true → Clean false (failed (release_authority s t))
  release_authority-Clean lacks =
      failed-Clean false _ (ground arith) refl
        (release_authority-Leaves s refl refl refl refl refl refl refl has_pool runs so_far)

module _ {s : Server} {t : Trace} (serving : is_serving s ≡ true) (so_far : Leaves s t) where
  both : s.authority && s.network ≡ true
  both = ground arith

  pool_there : s.pool ≡ true
  pool_there = ground arith

  pool_runs : s.running ≡ true
  pool_runs = ground arith

  pub release_network-Clean : lacks_ws s ≡ true → Clean false (failed (release_network s t))
  unfolding release_network
  release_network-Clean lacks = failed-Clean false _ (ground arith) refl (
      release_authority-Leaves s refl refl refl refl refl refl refl pool_there pool_runs
        (destroy-Leaves network s.network refl refl (call-Leaves saved_peers both so_far)))

  pub release_ws-Clean : lacks_wt s ≡ true → Clean false (failed (release_ws s t))
  unfolding release_ws release_network
  release_ws-Clean lacks = failed-Clean false _ (ground arith) refl (
      release_authority-Leaves s refl refl refl refl refl refl refl pool_there pool_runs (
        destroy-Leaves network s.network refl refl
          (call-Leaves saved_peers both (destroy_if-Leaves ws_transport s refl refl so_far))))

  pub release_wt-Clean : lacks_wt_h3 s ≡ true → Clean false (failed (release_wt s t))
  unfolding release_wt release_ws release_network
  release_wt-Clean lacks = failed-Clean false _ (ground arith) refl (
      release_authority-Leaves s refl refl refl refl refl refl refl pool_there pool_runs (
        destroy-Leaves network s.network refl refl (
          call-Leaves saved_peers both (
            destroy_if-Leaves ws_transport s refl refl
              (destroy_if-Leaves wt_transport s refl refl so_far)))))

  pub release_transports-Clean : lacks_unix s ≡ true → Clean false (failed (release_transports s t))
  unfolding release_transports release_ws release_network
  release_transports-Clean lacks = failed-Clean false _ (ground arith) refl (
      release_authority-Leaves s refl refl refl refl refl refl refl pool_there pool_runs (
        destroy-Leaves network s.network refl refl (
          call-Leaves saved_peers both (
            destroy_if-Leaves ws_transport s refl refl (
              destroy_if-Leaves wt_h3_transport s refl refl
                (destroy_if-Leaves wt_transport s refl refl so_far))))))
