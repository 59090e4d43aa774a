-- ===== src/Cli/Cache/Command.antt =====
-- `cmd_cache` (src/offs/commands/cache.c): the subcommands of `offs cache`.
use offs.Base.{ℕ, ◌||◌, List, [], ◌∷◌, Bytes, codes, str_eq, if◌then◌else◌}
use offs.Cli.Host.{Host, M, return}
use offs.Cli.Resolve.{Platform}
use offs.Cli.Cache.Move.{cmd_cache_move}
use offs.Cli.Cache.Resize.{Exchange, cmd_cache_size}
use offs.Cli.Cache.Gc.{KeepFile, GcRequest, cmd_cache_gc}

pub data CacheWord : Type 0 where
  help_word size_word move_word gc_word bad_word : CacheWord

-- By the first argument.
unfoldable pub cache_word : Bytes → CacheWord
cache_word arg =
    if str_eq arg (codes "--help") || str_eq arg (codes "help")
    then help_word
    else if str_eq arg (codes "size")
    then size_word
    else if str_eq arg (codes "move")
    then move_word
    else if str_eq arg (codes "gc")
    then gc_word
    else bad_word

module _ {Item : Type 0} (H : Host) (P : Platform Item) (resize : ℕ → Exchange) (double : ℕ → ℕ)
    (cap : ℕ) (open_file : Bytes → KeepFile) (sweep : GcRequest → Exchange) where
  unfoldable pub cmd_cache : List Bytes → M ℕ
  cmd_cache [] = return 0
  cmd_cache (arg ∷ argv) = elim (cache_word arg) [
    | help_word ↦ return 0
    | size_word ↦ cmd_cache_size H P resize double argv
    | move_word ↦ cmd_cache_move H P argv
    | gc_word ↦ return (cmd_cache_gc cap open_file sweep argv).status
    | bad_word ↦ return 1
  ]
