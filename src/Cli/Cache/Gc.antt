-- ===== src/Cli/Cache/Gc.antt =====
-- `offs cache gc` (src/offs/commands/cache.c): `_gc_reason_name`, `_read_gc_keep_file`,
-- `_cache_gc_apply` and `_cmd_cache_gc`. What is printed of a response is left out.
pub mod Kept
use offs.Base.{
  ℕ, Bool, true, false, ◌||◌, Option, none, some, List, [], ◌∷◌, ltb, ◌==◌, length, if◌then◌else◌,
  Bytes, codes, str_eq,
}
use offs.Cli.Cache.Resize.{Exchange, Applied, applied, refused, unreachable, outcome}

-- The reasons of a failed line.
unfoldable pub gc_reason_name : ℕ → Bytes
gc_reason_name reason =
    if reason == 1
    then codes "malformed_url"
    else if reason == 2
    then codes "missing_descriptor"
    else if reason == 3
    then codes "malformed_descriptor"
    else if reason == 4
    then codes "cycle"
    else codes "unknown"

-- A file as fopen, fseek with ftell, and fread give it: not opened, of unknown length, or of a
-- length with the bytes that were read.
pub data KeepFile : Type 0 where
  unopened unsized : KeepFile
  sized : ℕ → Bytes → KeepFile

-- The results -1, 1, 2 and 0.
pub data ReadResult : Type 0 where
  io_error empty too_large : ReadResult
  text_read : Bytes → ReadResult

-- `cap` is CLIENT_API_GC_MAX_URLS_TEXT.
unfoldable pub read_gc_keep_file : ℕ → KeepFile → ReadResult
read_gc_keep_file cap unopened = io_error
read_gc_keep_file cap unsized = io_error
read_gc_keep_file cap (sized file_length text) =
    if file_length == 0
    then empty
    else if ltb cap file_length
    then too_large
    else if length text == file_length
    then text_read text
    else io_error

pub record GcOptions : Type 0 where
  pub from_text : Option Bytes
  pub force : Bool
  pub defrag : Bool

pub data GcArgs : Type 0 where
  help usage : GcArgs
  options : GcOptions → GcArgs

pub data GcWord : Type 0 where
  help_word from_word force_word defrag_word bad_word : GcWord

unfoldable pub gc_word : Bytes → GcWord
gc_word arg =
    if str_eq arg (codes "--help") || str_eq arg (codes "help")
    then help_word
    else if str_eq arg (codes "--from")
    then from_word
    else if str_eq arg (codes "--force")
    then force_word
    else if str_eq arg (codes "--defrag")
    then defrag_word
    else bad_word

-- The loop over argv.
unfoldable pub parse_gc : List Bytes → GcOptions → GcArgs
parse_gc [] o = options o
parse_gc (arg ∷ []) o = elim (gc_word arg) [
  | help_word ↦ help
  | from_word ↦ usage
  | force_word ↦ options (record o { force = true })
  | defrag_word ↦ options (record o { defrag = true })
  | bad_word ↦ usage
]
parse_gc (arg ∷ next ∷ argv) o = elim (gc_word arg) [
  | help_word ↦ help
  | from_word ↦ parse_gc argv (record o { from_text = some next })
  | force_word ↦ parse_gc (next ∷ argv) (record o { force = true })
  | defrag_word ↦ parse_gc (next ∷ argv) (record o { defrag = true })
  | bad_word ↦ usage
]

abbrev pub no_gc : GcOptions
no_gc = record { from_text = none; force = false; defrag = false }

-- What a NUL-terminated text holds.
unfoldable pub c_string : Bytes → Bytes
c_string [] = []
c_string (c ∷ text) = let rest = c_string text in if c == 0 then [] else c ∷ rest

-- The request of a sweep.
pub record GcRequest : Type 0 where
  pub urls : Bytes
  pub force : Bool
  pub defrag : Bool

-- The exit status, and the request that was made.
pub record GcRun : Type 0 where
  pub status : ℕ
  pub requested : Option GcRequest

abbrev pub no_request : ℕ → GcRun
no_request status = record { status = status; requested = none }

-- The result of _cache_gc_apply as the command's status.
unfoldable pub gc_status : Applied → ℕ
gc_status applied = 0
gc_status refused = 1
gc_status unreachable = 1

module _ (cap : ℕ) (open_file : Bytes → KeepFile) (sweep : GcRequest → Exchange) where
  -- _cache_gc_apply; `urls` is a char*, which ends at the first zero byte.
  unfoldable pub cache_gc_apply : GcRequest → GcRun
  cache_gc_apply request = record {
    status = gc_status (outcome (sweep request));
    requested = some request;
  }

  -- By the result of the reading.
  unfoldable pub gc_read : ReadResult → GcOptions → GcRun
  gc_read io_error o = no_request 1
  gc_read empty o = no_request 1
  gc_read too_large o = no_request 1
  gc_read (text_read text) o =
      cache_gc_apply (record { urls = c_string text; force = o.force; defrag = o.defrag })

  -- By the file's name.
  unfoldable pub gc_from : Option Bytes → GcOptions → GcRun
  gc_from none o = no_request 1
  gc_from (some path) o = gc_read (read_gc_keep_file cap (open_file path)) o

  unfoldable pub run_gc : GcArgs → GcRun
  run_gc help = no_request 0
  run_gc usage = no_request 1
  run_gc (options o) = gc_from o.from_text o

  unfoldable pub cmd_cache_gc : List Bytes → GcRun
  cmd_cache_gc argv = run_gc (parse_gc argv no_gc)
