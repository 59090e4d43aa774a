-- ===== src/Cli/Cache/Move.antt =====
-- `offs cache move` (src/offs/commands/cache.c): `_absolutize`, `_stage_string_or_null` and
-- `_cmd_cache_move`, on POSIX. Items of JSON are built with no failure of allocation.
pub mod Effects
pub mod Settled
use offs.Base.{
  ℕ, ◌+◌, Bool, true, false, not, ◌&&◌, ◌||◌, Option, none, some, List, [], ◌∷◌, ◌++◌, leb,
  if◌then◌else◌, length, Bytes, codes, str_eq, has_prefix,
}
use offs.Cli.Host.{
  Verify, sha256, unverified, Event, created_dir, staged, moved, removed, FileKind, missing,
  directory, other, Contents, empty, nonempty, unreadable, Host, M, ◌>>=◌, ◌>>◌, return, ask, look,
  Trace,
}
use offs.Cli.Paths.{Conflict, disjoint, same, nested, paths_conflict, path_size}
use offs.Cli.Resolve.{Platform, resolve_config_dir, resolve_current, buffer_size}
use offs.Cli.Daemon.{daemon_is_running, wait_stopped, cmd_stop, cmd_start}

pub record MoveOptions : Type 0 where
  pub dest : Option Bytes
  pub from : Option Bytes
  pub config_dir : Option Bytes
  pub is_unsafe : Bool
  pub keep : Bool

-- How the arguments are read: the help, a usage error, or a command to run.
pub data MoveArgs : Type 0 where
  help usage : MoveArgs
  run : Bytes → MoveOptions → MoveArgs

-- The test behind the loop.
check_dest : MoveOptions → MoveArgs
check_dest o = elim o.dest [ none ↦ usage | some dest ↦ run dest o ]

pub data MoveWord : Type 0 where
  help_word from_word config_word unsafe_word keep_word plain_word bad_word : MoveWord

-- The test of one argument, `has_dest` being `dest_text != NULL`.
move_word : Bytes → Bool → MoveWord
move_word arg has_dest =
    if str_eq arg (codes "--help") || str_eq arg (codes "help")
    then help_word
    else if str_eq arg (codes "--from")
    then from_word
    else if str_eq arg (codes "--config-dir")
    then config_word
    else if str_eq arg (codes "--unsafe")
    then unsafe_word
    else if str_eq arg (codes "--keep")
    then keep_word
    else if has_prefix (codes "-") arg || has_dest
    then bad_word
    else plain_word

abbrev is_some : Option Bytes → Bool
is_some none = false
is_some (some s) = true

-- The loop over argv.
unfoldable pub parse_move : List Bytes → MoveOptions → MoveArgs
unfolding check_dest move_word
parse_move [] o = check_dest o
parse_move (arg ∷ []) o = elim (move_word arg (is_some o.dest)) [
  | help_word ↦ help
  | from_word ↦ usage
  | config_word ↦ usage
  | unsafe_word ↦ check_dest (record o { is_unsafe = true })
  | keep_word ↦ check_dest (record o { keep = true })
  | plain_word ↦ check_dest (record o { dest = some arg })
  | bad_word ↦ usage
]
parse_move (arg ∷ value ∷ argv) o = elim (move_word arg (is_some o.dest)) [
  | help_word ↦ help
  | from_word ↦ parse_move argv (record o { from = some value })
  | config_word ↦ parse_move argv (record o { config_dir = some value })
  | unsafe_word ↦ parse_move (value ∷ argv) (record o { is_unsafe = true })
  | keep_word ↦ parse_move (value ∷ argv) (record o { keep = true })
  | plain_word ↦ parse_move (value ∷ argv) (record o { dest = some arg })
  | bad_word ↦ usage
]

abbrev pub no_options : MoveOptions
no_options = record { dest = none; from = none; config_dir = none; is_unsafe = false; keep = false }

-- A text that snprintf writes in full.
abbrev fitting : ℕ → Bytes → Option Bytes
fitting out_size s = if leb out_size (length s) then none else some s

-- `_absolutize`; getcwd is given a buffer of 512 bytes.
unfoldable pub absolutize : Host → Bytes → ℕ → Option Bytes
absolutize H path out_size =
    if has_prefix (codes "/") path then fitting out_size path else elim H.cwd [
      | none ↦ none
      | some cwd ↦
          if leb 512 (length cwd) then none else fitting out_size (cwd ++ (codes "/" ++ path))
    ]

module _ (H : Host) where
  -- _stage_string_or_null of "cache_dir"
  unfoldable pub stage_cache_dir : Bytes → Option Bytes → M Bool
  stage_cache_dir config_dir value =
      ask (λ t. H.stage t config_dir (codes "cache_dir") value)
        (staged config_dir (codes "cache_dir") value)

  -- `if (was_running) cmd_start(0, NULL, NULL);`
  unfoldable pub restart_if : Bool → ℕ → M ℕ
  restart_if false status = return status
  restart_if true status = do cmd_start H []; return status

  -- From `rm_rf(src)` on.
  unfoldable pub finish_move : Bytes → Bool → M ℕ
  finish_move src was_running = do ask (λ t. H.remove t src) (removed src); restart_if was_running 0

  -- From cli_cache_move_tree on.
  unfoldable pub move_files : Bytes → Bytes → Bytes → Bool → Bool → M ℕ
  move_files src dest config_dir is_unsafe was_running = do
    let mode = if is_unsafe then unverified else sha256
    ok ← ask (λ t. H.move t src dest mode) (moved src dest mode)
    if ok
        then finish_move src was_running
        else (do stage_cache_dir config_dir none; restart_if was_running 1)

  -- From the staging before the move on.
  unfoldable pub stage_and_move : Bytes → Bytes → Bytes → Bool → Bool → M ℕ
  stage_and_move src dest config_dir is_unsafe was_running = do
    ok ← stage_cache_dir config_dir (some dest)
    if ok then move_files src dest config_dir is_unsafe was_running else restart_if was_running 1

  -- The last question, `|| cli_daemon_is_running()`.
  unfoldable pub confirm_down : Bool → M Bool
  confirm_down false = return false
  confirm_down true = do up ← daemon_is_running H; return (not up)

  -- From the status of cmd_stop on.
  unfoldable pub await_stop : ℕ → M Bool
  await_stop ℕ.zero = do down ← wait_stopped H 10000; confirm_down down
  await_stop (ℕ.suc _) = return false

  -- cmd_stop, cli_daemon_wait_stopped and the last question: whether the daemon is down.
  unfoldable pub stop_daemon : M Bool
  stop_daemon = do status ← cmd_stop H; await_stop status

  -- From cli_daemon_is_running on.
  unfoldable pub stop_and_move : Bytes → Bytes → Bytes → Bool → M ℕ
  stop_and_move src dest config_dir is_unsafe = do
    was_running ← daemon_is_running H
    if was_running
        then (do
          down ← stop_daemon
          if down then stage_and_move src dest config_dir is_unsafe true else return 1)
        else stage_and_move src dest config_dir is_unsafe false

  -- Staging with no move, for an empty source and for --keep.
  unfoldable pub stage_only : Bytes → Bytes → M ℕ
  stage_only config_dir dest = do
    ok ← stage_cache_dir config_dir (some dest)
    return (if ok then 0 else 1)

  -- By the source's contents and --keep.
  unfoldable pub act_on_source : Contents → Bool → Bytes → Bytes → Bytes → Bool → M ℕ
  act_on_source nonempty false src dest config_dir is_unsafe =
      stop_and_move src dest config_dir is_unsafe
  act_on_source nonempty true src dest config_dir is_unsafe = stage_only config_dir dest
  act_on_source empty keep src dest config_dir is_unsafe = stage_only config_dir dest
  act_on_source unreadable keep src dest config_dir is_unsafe = stage_only config_dir dest

  -- From dir_is_empty of the source on.
  unfoldable pub move_or_stage : Bytes → Bytes → Bytes → MoveOptions → M ℕ
  move_or_stage src dest config_dir o = do
    state ← look (λ t. H.contents t src)
    act_on_source state o.keep src dest config_dir o.is_unsafe

  -- The destination is there and empty, or is made.
  unfoldable pub prepare_dest : Bytes → M Bool
  prepare_dest dest = do
    kind ← look (λ t. H.kind t dest)
    elim kind [
      | directory ↦ (do
        state ← look (λ t. H.contents t dest)
        return (elim state [ nonempty ↦ false | empty ↦ true | unreadable ↦ true ]))
      | other ↦ return false
      | missing ↦ ask (λ t. H.mkdir t dest) (created_dir dest)
    ]

module _ {Item : Type 0} (H : Host) (P : Platform Item) where
  -- The source, made absolute.
  unfoldable pub source_dir : Bytes → MoveOptions → Option Bytes
  source_dir config_dir o = elim (resolve_current P o.from (some config_dir) buffer_size) [
    | none ↦ none
    | some s ↦ absolutize H s path_size
  ]

  -- From cli_cache_paths_conflict on.
  unfoldable pub move_checked : Conflict → Bytes → Bytes → Bytes → MoveOptions → M ℕ
  move_checked disjoint src dest config_dir o = move_or_stage H src dest config_dir o
  move_checked same src dest config_dir o = return 1
  move_checked nested src dest config_dir o = return 1

  -- From the source on, `none` being an unresolved one.
  unfoldable pub move_from : Option Bytes → Bytes → Bytes → MoveOptions → M ℕ
  move_from none dest config_dir o = return 1
  move_from (some src) dest config_dir o =
      move_checked (paths_conflict src dest) src dest config_dir o

  -- From the configuration directory on.
  unfoldable pub move_configured : Option Bytes → Bytes → MoveOptions → M ℕ
  move_configured none dest o = return 1
  move_configured (some config_dir) dest o = move_from (source_dir config_dir o) dest config_dir o

  -- From the resolution of the configuration directory on.
  unfoldable pub move_resolved : Bytes → MoveOptions → M ℕ
  move_resolved dest o = move_configured (resolve_config_dir P o.config_dir buffer_size) dest o

  unfoldable pub move_to : Bytes → MoveOptions → M ℕ
  move_to dest o = do
    ready ← prepare_dest H dest
    elim ready [ true ↦ move_resolved dest o | false ↦ return 1 ]

  -- _cmd_cache_move: the exit status
  unfoldable pub cmd_cache_move : List Bytes → M ℕ
  cmd_cache_move argv = elim (parse_move argv no_options) [
    | help ↦ return 0
    | usage ↦ return 1
    | run dest_text o ↦ elim (absolutize H dest_text path_size) [
      | none ↦ return 1
      | some dest ↦ move_to dest o
    ]
  ]
