-- ===== src/Cli/Cache/Move/Settled.antt =====
-- A run of `offs cache move` (src/offs/commands/cache.c) as a whole: what it leaves in the trace.
use offs.Base.{ℕ, Bool, true, false, Option, none, some, List, [], Bytes, refl}
use offs.Cli.Host.{Host, M, return, Trace}
use offs.Cli.Paths.{Conflict, disjoint, same, nested, paths_conflict, path_size}
use offs.Cli.Resolve.{Platform, resolve_config_dir, buffer_size}
use offs.Cli.Cache.Move.{
  MoveOptions, MoveArgs, help, usage, run, parse_move, no_options, absolutize, move_or_stage,
  prepare_dest, source_dir, move_checked, move_from, move_configured, move_resolved, move_to,
  cmd_cache_move,
}
use offs.Cli.Cache.Move.Effects.{
  view, IsSettled, Settled, IsFresh, fresh-IsSettled, act_on_source-Settled, IsFresh-view,
  prepare_dest-view,
}

module _ {Item : Type 0} (H : Host) (P : Platform Item) where
  move_checked-Settled :
      (k : Conflict) (src dest config_dir : Bytes) (o : MoveOptions) (t : Trace)
      → IsFresh (view t)
      → Settled (some config_dir) (move_checked H P k src dest config_dir o t)
  unfolding move_checked move_or_stage
  move_checked-Settled disjoint src dest config_dir o t f =
      act_on_source-Settled H (H.contents t src) o.keep src dest config_dir o.is_unsafe t f
  move_checked-Settled same src dest config_dir o t f =
      fresh-IsSettled (some config_dir) 1 (view t) f
  move_checked-Settled nested src dest config_dir o t f =
      fresh-IsSettled (some config_dir) 1 (view t) f

  move_from-Settled :
      (src : Option Bytes) (dest config_dir : Bytes) (o : MoveOptions) (t : Trace)
      → IsFresh (view t)
      → Settled (some config_dir) (move_from H P src dest config_dir o t)
  unfolding move_from
  move_from-Settled none dest config_dir o t f = fresh-IsSettled (some config_dir) 1 (view t) f
  move_from-Settled (some src) dest config_dir o t f =
      move_checked-Settled (paths_conflict src dest) src dest config_dir o t f

  move_configured-Settled :
      (config_dir : Option Bytes) (dest : Bytes) (o : MoveOptions) (t : Trace)
      → IsFresh (view t)
      → Settled config_dir (move_configured H P config_dir dest o t)
  unfolding move_configured
  move_configured-Settled none dest o t f = fresh-IsSettled none 1 (view t) f
  move_configured-Settled (some config_dir) dest o t f =
      move_from-Settled (source_dir H P config_dir o) dest config_dir o t f

  -- The configuration directory of the run.
  abbrev pub config_of : MoveOptions → Option Bytes
  config_of o = resolve_config_dir P o.config_dir buffer_size

  abbrev pub config_in : MoveArgs → Option Bytes
  config_in help = none
  config_in usage = none
  config_in (run dest_text o) = config_of o

  move_to-Settled :
      (dest : Bytes) (o : MoveOptions) (t : Trace)
      → IsFresh (view t)
      → Settled (config_of o) (move_to H P dest o t)
  unfolding move_to move_resolved
  move_to-Settled dest o t f = by_ready (prepare_dest H dest t).0
    where
      u : Trace
      u = (prepare_dest H dest t).1

      fresh : IsFresh (view u)
      fresh = IsFresh-view H t u (prepare_dest-view H dest t) f

      by_ready :
          (ready : Bool)
          → Settled
              (config_of o)
              ((elim ready as (λ b. M ℕ) [ true ↦ move_resolved H P dest o | false ↦ return 1 ]) u)
      by_ready true = move_configured-Settled _ dest o u fresh
      by_ready false = fresh-IsSettled (config_of o) 1 (view u) fresh

  -- However a run of `offs cache move` goes, from any arguments and with any answers of the
  -- machine: after a move that succeeded the status is 0, the newest staging of all is that of the
  -- move's destination as cache_dir in the run's configuration directory, and the one removal tried is
  -- that of the move's source; after one that failed the status is 1, nothing has been removed and
  -- the newest staging is the attempt to put null as cache_dir there; and where nothing was moved,
  -- nothing is removed.
  pub cmd_cache_move-IsSettled :
      (argv : List Bytes)
      → IsSettled
          (config_in (parse_move argv no_options))
          (cmd_cache_move H P argv []).0
          (view (cmd_cache_move H P argv []).1)
  unfolding cmd_cache_move
  cmd_cache_move-IsSettled argv = by_args (parse_move argv no_options)
    where
      fresh : IsFresh (view [])
      fresh = record { no_move = refl; no_removal = refl }

      by_dest :
          (o : MoveOptions) (d : Option Bytes)
          → Settled
              (config_of o)
              ((elim d as (λ x. M ℕ) [ none ↦ return 1 | some dest ↦ move_to H P dest o ]) [])
      by_dest o none = fresh-IsSettled (config_of o) 1 (view []) fresh
      by_dest o (some dest) = move_to-Settled dest o [] fresh

      by_args :
          (a : MoveArgs)
          → Settled (config_in a) (
              (elim a as (λ x. M ℕ) [
                | help ↦ return 0
                | usage ↦ return 1
                | run dest_text o ↦ elim (absolutize H dest_text path_size) as (λ x. M ℕ) [
                  | none ↦ return 1
                  | some dest ↦ move_to H P dest o
                ]
              ])
                [])
      by_args help = fresh-IsSettled none 0 (view []) fresh
      by_args usage = fresh-IsSettled none 1 (view []) fresh
      by_args (run dest_text o) = by_dest o (absolutize H dest_text path_size)
