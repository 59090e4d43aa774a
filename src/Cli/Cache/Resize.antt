-- ===== src/Cli/Cache/Resize.antt =====
-- `offs cache size` (src/offs/commands/cache.c): `_cache_size_apply`, `_stage_number` and
-- `_cmd_cache_size`.
pub mod Staged
use offs.Base.{
  ℕ, zero, suc, Bool, true, false, ◌||◌, Option, none, some, List, [], ◌∷◌, if◌then◌else◌, Bytes,
  codes, str_eq, has_prefix,
}
use offs.Cli.Host.{Event, staged_number, Host, M, ◌>>=◌, return, ask, Trace}
use offs.Cli.Resolve.{Platform, resolve_config_dir, buffer_size}
use offs.Cli.Cache.Size.{parse_size_bytes}

-- What becomes of one request: no client or no connection, a request that cannot be encoded, no
-- response, an error frame, a frame of another type, one that cannot be decoded, or a status.
pub data Exchange : Type 0 where
  unconnected unencoded unanswered error_frame other_frame undecoded : Exchange
  answered : ℕ → Exchange

-- The results 0, 1 and -1.
pub data Applied : Type 0 where
  applied refused unreachable : Applied

unfoldable pub outcome : Exchange → Applied
outcome unconnected = unreachable
outcome unanswered = unreachable
outcome unencoded = refused
outcome error_frame = refused
outcome other_frame = refused
outcome undecoded = refused
outcome (answered zero) = applied
outcome (answered (suc n)) = refused

pub record SizeOptions : Type 0 where
  pub value_text : Option Bytes
  pub config_dir_flag : Option Bytes

pub data SizeArgs : Type 0 where
  help usage : SizeArgs
  options : SizeOptions → SizeArgs

pub data SizeWord : Type 0 where
  help_word config_word bad_word value_word : SizeWord

abbrev is_given : Option Bytes → Bool
is_given none = false
is_given (some text) = true

-- The test of one argument.
unfoldable pub size_word : Bytes → Bool → SizeWord
size_word arg has_value =
    if str_eq arg (codes "--help") || str_eq arg (codes "help")
    then help_word
    else if str_eq arg (codes "--config-dir")
    then config_word
    else if has_prefix (codes "-") arg || has_value
    then bad_word
    else value_word

-- The loop over argv.
unfoldable pub parse_size : List Bytes → SizeOptions → SizeArgs
parse_size [] o = options o
parse_size (arg ∷ []) o = elim (size_word arg (is_given o.value_text)) [
  | help_word ↦ help
  | config_word ↦ usage
  | bad_word ↦ usage
  | value_word ↦ options (record o { value_text = some arg })
]
parse_size (arg ∷ next ∷ argv) o = elim (size_word arg (is_given o.value_text)) [
  | help_word ↦ help
  | config_word ↦ parse_size argv (record o { config_dir_flag = some next })
  | bad_word ↦ usage
  | value_word ↦ parse_size (next ∷ argv) (record o { value_text = some arg })
]

abbrev pub no_size : SizeOptions
no_size = record { value_text = none; config_dir_flag = none }

-- The value's number of bytes.
unfoldable pub size_of : Option Bytes → Option ℕ
size_of none = none
size_of (some text) = parse_size_bytes text

-- The calls' results, the exchange with the daemon, and the number that (double) makes of another.
module _ {Item : Type 0} (H : Host) (P : Platform Item) (resize : ℕ → Exchange)
    (double : ℕ → ℕ) where
  -- _stage_number of "max_capacity_bytes", where there is a directory.
  unfoldable pub stage_size : Option Bytes → ℕ → M ℕ
  stage_size none bytes = return 1
  stage_size (some config_dir) bytes = do
    ok ←
        ask (λ t. H.stage_number t config_dir (codes "max_capacity_bytes") (double bytes))
          (staged_number config_dir (codes "max_capacity_bytes") (double bytes))
    return (if ok then 0 else 1)

  -- By the result of _cache_size_apply.
  unfoldable pub after_apply : Applied → Option Bytes → ℕ → M ℕ
  after_apply applied config_dir_flag bytes = return 0
  after_apply refused config_dir_flag bytes = return 1
  after_apply unreachable config_dir_flag bytes =
      stage_size (resolve_config_dir P config_dir_flag buffer_size) bytes

  -- By the value.
  unfoldable pub apply_size : Option ℕ → Option Bytes → M ℕ
  apply_size none config_dir_flag = return 1
  apply_size (some bytes) config_dir_flag =
      after_apply (outcome (resize bytes)) config_dir_flag bytes

  unfoldable pub run_size : SizeArgs → M ℕ
  run_size help = return 0
  run_size usage = return 1
  run_size (options o) = apply_size (size_of o.value_text) o.config_dir_flag

  unfoldable pub cmd_cache_size : List Bytes → M ℕ
  cmd_cache_size argv = run_size (parse_size argv no_size)
