-- ===== src/Offsd/Startup/Ends.antt =====
-- The two ends of `_startup` (src/offsd/main.c), from the directories on.
use offs.Base.{Bool, true, false, not, Option, none, some, ◌==◌, ◌≡◌, refl, arith, Bytes}
use offs.Offsd.Args.{OffsdArgs}
use offs.Offsd.Life.{
  members, pool, timer, Server, set, no_server, created, pool_started, made_dir, Trace, live, safe,
  destroy_if,
}
use offs.Offsd.Life.Steps.{Leaves, leaves, create_failed-Leaves, call-Leaves, destroy_if-Leaves}
use offs.Offsd.Startup.{Config, Outside, settle_config}
use offs.Offsd.Startup.Stages.{
  Attempt, failed, accept_config, pool_made, start_pool, dir_made, with_dir, make_config_dir,
  override_server, startup,
}
use offs.Offsd.Startup.Release.{Owned, Clean, Owned-Clean, failed-Clean}
use offs.Offsd.Startup.Ownership.{start_configured-Clean}

module _ (O : Outside) (may_leak : Bool) where
  -- A failure before the override is accepted.
  early-Clean :
      (override : Option Config) {t : Trace}
      → Leaves (override_server override) t
      → Clean may_leak (failed (destroy_if members (override_server override) t))
  early-Clean none so_far =
      failed-Clean may_leak no_server refl (ground arith)
        (destroy_if-Leaves members no_server refl refl so_far)
  early-Clean (some c) so_far =
      failed-Clean may_leak no_server refl (ground arith)
        (destroy_if-Leaves members (set members true no_server) refl refl so_far)

  dir_made-Clean :
      (ok : Bool) (dir : Bytes) (override : Option Config) (next : Server → Trace → Attempt)
      {t : Trace}
      → ((longer : Trace)
          → Leaves (override_server override) longer
          → Clean may_leak (next (override_server override) longer))
      → Leaves (override_server override) t
      → Clean may_leak (dir_made O ok dir next (override_server override) t)
  unfolding dir_made
  dir_made-Clean true dir override next goes_on so_far =
      goes_on _ (call-Leaves (made_dir dir true) refl so_far)
  dir_made-Clean false dir override next goes_on so_far =
      early-Clean override (call-Leaves (made_dir dir false) refl so_far)

  with_dir-Clean :
      (dir : Option Bytes) (override : Option Config) (next : Server → Trace → Attempt) {t : Trace}
      → ((longer : Trace)
          → Leaves (override_server override) longer
          → Clean may_leak (next (override_server override) longer))
      → Leaves (override_server override) t
      → Clean may_leak (with_dir O dir next (override_server override) t)
  unfolding with_dir
  with_dir-Clean none override next goes_on so_far = goes_on _ so_far
  with_dir-Clean (some dir) override next goes_on so_far =
      dir_made-Clean (O.mkdir dir) dir override next goes_on so_far

module _ (O : Outside) where
  -- From the running pool and the timer on.
  accept_config-Clean :
      (override : Option Config) (a : OffsdArgs) {ticks : Bool} {t : Trace}
      → Leaves
          (set timer ticks (record (override_server override) { pool = true; running = true }))
          t
      → Clean (not (a.port == 0)) (
          accept_config O override a
            (set timer ticks (record (override_server override) { pool = true; running = true }))
            t)
  unfolding accept_config
  accept_config-Clean none a so_far =
      start_configured-Clean O (settle_config O a O.config_default) a refl refl
        (call-Leaves (created members true) refl so_far)
  accept_config-Clean (some c) a so_far =
      start_configured-Clean O (settle_config O a c) a refl refl so_far

  pool_made-Clean :
      (ok : Bool) (override : Option Config) (a : OffsdArgs) {t : Trace}
      → Leaves (override_server override) t
      → Clean (not (a.port == 0)) (pool_made O ok override a (override_server override) t)
  unfolding pool_made
  pool_made-Clean true none a so_far = accept_config-Clean none a (
      call-Leaves (created timer (O.creates timer)) refl
        (call-Leaves pool_started refl (call-Leaves (created pool true) refl so_far)))
  pool_made-Clean true (some c) a so_far = accept_config-Clean (some c) a (
      call-Leaves (created timer (O.creates timer)) refl
        (call-Leaves pool_started refl (call-Leaves (created pool true) refl so_far)))
  pool_made-Clean false none a so_far = early-Clean O _ none (create_failed-Leaves pool refl so_far)
  pool_made-Clean false (some c) a so_far =
      early-Clean O _ (some c) (create_failed-Leaves pool refl so_far)

  start_pool-Clean :
      (override : Option Config) (a : OffsdArgs) {t : Trace}
      → Leaves (override_server override) t
      → Clean (not (a.port == 0)) (start_pool O override a (override_server override) t)
  unfolding start_pool
  start_pool-Clean override a so_far = pool_made-Clean (O.creates pool) override a so_far

  make_config_dir-Clean :
      (override : Option Config) (a : OffsdArgs) {t : Trace}
      → Leaves (override_server override) t
      → Clean (not (a.port == 0)) (make_config_dir O override a (override_server override) t)
  unfolding make_config_dir
  make_config_dir-Clean override a so_far =
      with_dir-Clean O _ a.config_dir override (start_pool O override a)
        (λ _ after. start_pool-Clean override a after) so_far

  -- A start that succeeds has made just the parts that its pointers name, with the pool running; one
  -- that fails, at whatever call, has destroyed each part that it made once, the configuration's
  -- strings left aside, and the authority where there is a port for the HTTP server; its calls are
  -- all allowed. Before the start nothing is alive but the override's strings.
  pub startup-Owned :
      (override : Option Config) (a : OffsdArgs) (t : Trace)
      → live t ≡ override_server override
      → safe t ≡ true
      → Owned (not (a.port == 0)) (startup O override a t)
  unfolding startup
  startup-Owned override a t alive fine = Owned-Clean (
      with_dir-Clean O _ a.cache_dir override (make_config_dir O override a)
        (λ _ after. make_config_dir-Clean override a after) (leaves alive fine))
