-- ===== src/Offsd/Run/Ends.antt =====
-- The ends of the daemon's process (`_run_offsd`, src/offsd/main.c), and its cache directory.
use offs.Base.{
  ℕ, zero, suc, Bool, true, false, Option, none, some, List, [], Bytes, ◌≡◌, refl, sym, ap, ◌∙◌,
  Option-cases, inl, inr,
}
use offs.Offsd.Args.{OffsdArgs, ParseResult, parsed, shown_help}
use offs.Offsd.Life.{Trace, live, safe, no_server}
use offs.Offsd.Life.Steps.{Leaves, leaves}
use offs.Offsd.Startup.{Config}
use offs.Offsd.Daemonize.{Daemonized, left, detached}
use offs.Offsd.Uninstall.{given}
use offs.Offsd.Uninstall.Chosen.{run_uninstall-Leaves}
use offs.Offsd.Loop.{exited}
use offs.Offsd.Loop.Exits.{Ended, Leaves-Ended, load_pending_override-Leaves}
use offs.Offsd.Run.{
  World, fill_dirs, move_cache, run_daemon, run_detached, run_ground, run_filled, run_parsed,
  run_removal, run_first, run_offsd,
}

exited-Ended : (status : ℕ) {t : Trace} → Leaves no_server t → Ended (exited status t)
unfolding Ended
exited-Ended zero (leaves alive fine) = (alive, fine)
exited-Ended (suc n) (leaves alive fine) = (rw alive refl, fine)

untouched : Leaves no_server []
unfolding live safe
untouched = leaves refl refl

module _ {Item : Type 0} (W : World Item) where
  run_daemon-Ended :
      (explicit_cache_dir : Option Bytes) (a : OffsdArgs)
      → Ended (run_daemon W explicit_cache_dir a)
  unfolding run_daemon
  run_daemon-Ended explicit_cache_dir a =
      Leaves-Ended W.cycles _ _ _
        (load_pending_override-Leaves a.config_dir W.pending_exists W.pending untouched)

  run_detached-Ended :
      (d : Daemonized) (explicit_cache_dir : Option Bytes) (a : OffsdArgs)
      → Ended (run_detached W d explicit_cache_dir a)
  unfolding run_detached
  run_detached-Ended left explicit_cache_dir a = exited-Ended 0 untouched
  run_detached-Ended Daemonized.refused explicit_cache_dir a = exited-Ended 1 untouched
  run_detached-Ended (detached table) explicit_cache_dir a = run_daemon-Ended explicit_cache_dir a

  run_ground-Ended :
      (foreground : Bool) (explicit_cache_dir : Option Bytes) (a : OffsdArgs)
      → Ended (run_ground W foreground explicit_cache_dir a)
  unfolding run_ground
  run_ground-Ended true explicit_cache_dir a = run_daemon-Ended explicit_cache_dir a
  run_ground-Ended false explicit_cache_dir a = run_detached-Ended _ explicit_cache_dir a

  run_filled-Ended :
      (filled : Option OffsdArgs) (explicit_cache_dir : Option Bytes)
      → Ended (run_filled W filled explicit_cache_dir)
  unfolding run_filled
  run_filled-Ended none explicit_cache_dir = exited-Ended 1 untouched
  run_filled-Ended (some a) explicit_cache_dir = run_ground-Ended a.foreground explicit_cache_dir a

  run_parsed-Ended : (result : ParseResult) → Ended (run_parsed W result)
  unfolding run_parsed
  run_parsed-Ended shown_help = exited-Ended 0 untouched
  run_parsed-Ended ParseResult.refused = exited-Ended 1 untouched
  run_parsed-Ended (parsed a) = run_filled-Ended _ a.cache_dir

  run_first-Ended : (uninstalls : Bool) (argv : List Bytes) → Ended (run_first W uninstalls argv)
  unfolding run_first run_removal
  run_first-Ended true argv = exited-Ended _ (run_uninstall-Leaves W.disk _)
  run_first-Ended false argv = run_parsed-Ended _

  -- Whatever the arguments and the machine's answers are, and over any number of restarts: each call
  -- that the daemon makes on its parts is allowed, so that nothing is made twice, used or destroyed
  -- when it is not alive, or destroyed twice; a process that exits with 0 has destroyed all parts,
  -- and one that exits with another status all but the configuration's strings and the authority.
  pub run_offsd-Ended : (argv : List Bytes) → Ended (run_offsd W argv)
  unfolding run_offsd
  run_offsd-Ended argv = run_first-Ended _ argv

-- The first of three that is there.
abbrev pub first_dir : Option Bytes → Option Bytes → Bytes → Bytes
first_dir (some explicit) pending default = explicit
first_dir none (some pending) default = pending
first_dir none none default = default

abbrev pub pending_cache_dir : Option Config → Option Bytes
pending_cache_dir none = none
pending_cache_dir (some c) = c.cache_dir

abbrev cache_of : Option OffsdArgs → Option Bytes
cache_of none = none
cache_of (some a) = a.cache_dir

abbrev config_of : Option OffsdArgs → Option Bytes
config_of none = none
config_of (some a) = a.config_dir

fill_dirs_lem :
    (config_dir cache_dir : Option Bytes) (default_config default_cache : Bytes) (a : OffsdArgs)
    → a.config_dir ≡ config_dir
    → a.cache_dir ≡ cache_dir
    → (cache_of (fill_dirs config_dir cache_dir (some (default_config, default_cache)) a)
        ≡ some (given cache_dir default_cache))
      × (config_of (fill_dirs config_dir cache_dir (some (default_config, default_cache)) a)
          ≡ some (given config_dir default_config))
unfolding fill_dirs
fill_dirs_lem (some config) (some cache) default_config default_cache a own_config own_cache =
    (own_cache, own_config)
fill_dirs_lem (some config) none default_config default_cache a own_config own_cache =
    (refl, own_config)
fill_dirs_lem none cache_dir default_config default_cache a own_config own_cache = (refl, refl)

move_cache_lem :
    (cache_dir : Option Bytes) (override : Option Config) (default_cache : Bytes)
    (filled : OffsdArgs)
    → filled.cache_dir ≡ some (given cache_dir default_cache)
    → ((move_cache cache_dir override filled).cache_dir
        ≡ some (first_dir cache_dir (pending_cache_dir override) default_cache))
      × ((move_cache cache_dir override filled).config_dir ≡ filled.config_dir)
unfolding move_cache
move_cache_lem (some explicit) override default_cache filled own = (own, refl)
move_cache_lem none none default_cache filled own = (own, refl)
move_cache_lem none (some c) default_cache filled own = elim (Option-cases c.cache_dir) [
  | inl e ↦ simp e (own, refl)
  | inr (dir, e) ↦ simp e (refl, refl)
]

-- The cache stands in the directory of the flag or the configuration file, without one in the
-- pending relocation, and without that in the default; the configuration in its own or the default.
pub move_cache-first_dir :
    (config_dir cache_dir : Option Bytes) (default_config default_cache : Bytes)
    (override : Option Config) (a filled : OffsdArgs)
    → a.config_dir ≡ config_dir
    → a.cache_dir ≡ cache_dir
    → fill_dirs config_dir cache_dir (some (default_config, default_cache)) a ≡ some filled
    → ((move_cache cache_dir override filled).cache_dir
        ≡ some (first_dir cache_dir (pending_cache_dir override) default_cache))
      × ((move_cache cache_dir override filled).config_dir ≡ some (given config_dir default_config))
move_cache-first_dir config_dir cache_dir default_config default_cache override a filled own_config
      own_cache fills =
    let (cache, config) =
      fill_dirs_lem config_dir cache_dir default_config default_cache a own_config own_cache in
    let (moved, kept) =
      move_cache_lem cache_dir override default_cache filled (ap cache_of (sym fills) ∙ cache) in
    (moved, kept ∙ ap config_of (sym fills) ∙ config)
