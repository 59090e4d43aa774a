-- ===== src/Offsd/Run.antt =====
-- `_run_offsd` (src/offsd/main.c) as a whole, on POSIX. What is printed, the log's settings and
-- the registration of the signal handlers are left out; copies of strings succeed.
pub mod Ends
use offs.Base.{
  ℕ, Bool, true, false, Option, none, some, List, [], ◌∷◌, drop, Bytes, codes, str_eq, ◌≡◌, refl,
}
use offs.Offsd.Args.{OffsdArgs, ParseResult, parsed, shown_help, refused}
use offs.Offsd.ParseArgs.{Machine, parse_args, start_args}
use offs.Offsd.Life.{Trace, live, safe}
use offs.Offsd.Life.Steps.{Leaves, leaves}
use offs.Offsd.Startup.{Config}
use offs.Offsd.Startup.Stages.{override_server}
use offs.Offsd.Daemonize.{System, Table, Daemonized, left, detached, daemonize}
use offs.Offsd.Uninstall.{Disk, run_uninstall, given}
use offs.Offsd.Loop.{Cycle, Exit, exited, load_pending_override, run_cycles}
use offs.Offsd.Loop.Exits.{Ended, Leaves-Ended, load_pending_override-Leaves}

-- What a run of the process meets.
pub record World (Item : Type 0) : Type 0 where
  pub machine : Machine Item
  pub disk : Disk
  pub system : System
  pub descriptors : Table
  -- config_pending_exists and config_pending_load before the first cycle
  pub pending_exists : Bool
  pub pending : Option Config
  pub cycles : List Cycle

-- The default directories, the configuration's and the cache's, fill what is not given.
unfoldable pub fill_dirs :
    Option Bytes → Option Bytes → Option (Bytes × Bytes) → OffsdArgs → Option OffsdArgs
fill_dirs (some config_dir) (some cache_dir) defaults a = some a
fill_dirs (some config_dir) none none a = none
fill_dirs none cache_dir none a = none
fill_dirs (some config_dir) none (some (default_config, default_cache)) a =
    some (record a { cache_dir = some default_cache })
fill_dirs none cache_dir (some (default_config, default_cache)) a = some (record a {
  config_dir = some default_config;
  cache_dir = some (given cache_dir default_cache);
})

-- A pending cache directory replaces the default, not an explicit one.
unfoldable pub move_cache : Option Bytes → Option Config → OffsdArgs → OffsdArgs
move_cache (some explicit) override a = a
move_cache none none a = a
move_cache none (some c) a = elim c.cache_dir as (λ _. OffsdArgs) [
  | none ↦ a
  | some dir ↦ record a { cache_dir = some dir }
]

module _ {Item : Type 0} (W : World Item) where
  -- From the pending configuration on.
  unfoldable pub run_daemon : Option Bytes → OffsdArgs → Exit
  run_daemon explicit_cache_dir a =
      let (override, t) = load_pending_override a.config_dir W.pending_exists W.pending [] in
      run_cycles override (move_cache explicit_cache_dir override a) W.cycles t

  -- By the result of _daemonize.
  unfoldable pub run_detached : Daemonized → Option Bytes → OffsdArgs → Exit
  run_detached left explicit_cache_dir a = exited 0 []
  run_detached Daemonized.refused explicit_cache_dir a = exited 1 []
  run_detached (detached table) explicit_cache_dir a = run_daemon explicit_cache_dir a

  unfoldable pub run_ground : Bool → Option Bytes → OffsdArgs → Exit
  run_ground true explicit_cache_dir a = run_daemon explicit_cache_dir a
  run_ground false explicit_cache_dir a =
      run_detached (daemonize W.system a.log_file W.descriptors) explicit_cache_dir a

  -- From the filled directories on.
  unfoldable pub run_filled : Option OffsdArgs → Option Bytes → Exit
  run_filled none explicit_cache_dir = exited 1 []
  run_filled (some a) explicit_cache_dir = run_ground a.foreground explicit_cache_dir a

  -- By the result of _parse_args.
  unfoldable pub run_parsed : ParseResult → Exit
  run_parsed shown_help = exited 0 []
  run_parsed ParseResult.refused = exited 1 []
  run_parsed (parsed a) =
      run_filled (fill_dirs a.config_dir a.cache_dir W.disk.default_dirs a) a.cache_dir

  unfoldable pub run_removal : ℕ × Trace → Exit
  run_removal (status, t) = exited status t

  -- By the first argument.
  unfoldable pub run_first : Bool → List Bytes → Exit
  run_first true argv = run_removal (run_uninstall W.disk (drop 1 argv) [])
  run_first false argv = run_parsed (parse_args W.machine argv (start_args W.machine))

  abbrev is_uninstall : List Bytes → Bool
  is_uninstall [] = false
  is_uninstall (arg ∷ argv) = str_eq arg (codes "uninstall")

  -- `_run_offsd`, argv without the program's name.
  unfoldable pub run_offsd : List Bytes → Exit
  run_offsd argv = run_first (is_uninstall argv) argv
