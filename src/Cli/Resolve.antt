-- ===== src/Cli/Resolve.antt =====
-- Where the daemon's directories are: `cli_cache_read_config_file_dirs`,
-- `cli_cache_resolve_config_dir` and `cli_cache_resolve_current` of src/offs/cli_util.c.
pub mod Precedence
use offs.Base.{
  ℕ, ◌-◌, Bool, true, false, not, ◌&&◌, Option, none, some, List, [], ◌∷◌, if◌then◌else◌, ◌>>=◌,
  length, take, Bytes, codes,
}
use offs.Json.{Json}

-- What liboffs and the file system answer.
pub record Platform (Item : Type 0) : Type 0 where
  pub json : Json Item
  -- offs_default_config_path_get
  pub default_config_path : Option Bytes
  -- fopen, fread and cJSON_Parse of a file
  pub read_json : Bytes → Option Item
  -- offs_default_dirs_get
  pub default_config_dir : Option Bytes
  pub default_cache_dir : Option Bytes
  -- config_pending_load: the staged configuration's cache_dir
  pub pending_cache_dir : Bytes → Option (Option Bytes)

-- `snprintf(out, out_size, "%s", s)`
abbrev pub print_into : ℕ → Bytes → Bytes
print_into out_size s = take (out_size - 1) s

-- `char config_path[1024], file_cfg_dir[1024], ...`
abbrev pub buffer_size : ℕ
buffer_size = 1024

-- A text that is there and not empty.
abbrev pub nonempty_text : Option Bytes → Option Bytes
nonempty_text none = none
nonempty_text (some []) = none
nonempty_text (some (c ∷ cs)) = some (c ∷ cs)

-- The first of two texts that is there.
abbrev pub or_else : Option Bytes → Option Bytes → Option Bytes
or_else none second = second
or_else (some s) second = some s

module _ {Item : Type 0} (P : Platform Item) where
  -- A string field of a section of the configuration file.
  section_text : Item → Bytes → Bytes → Option Bytes
  section_text root section field = do
    part ← P.json.get root section
    value ← P.json.get part field
    P.json.text value

  abbrev text_or_empty : Option Bytes → Bytes
  text_or_empty none = []
  text_or_empty (some s) = s

  -- cli_cache_read_config_file_dirs with two buffers of `buffer_size`: config_dir_out and
  -- cache_dir_out. `none` is -1.
  unfoldable pub read_config_file_dirs : Bytes → Option (Bytes × Bytes)
  unfolding section_text
  read_config_file_dirs config_path = do
    root ← P.read_json config_path
    some (
      print_into buffer_size
          (text_or_empty (section_text root (codes "daemon") (codes "config-dir"))),
      print_into buffer_size (text_or_empty (section_text root (codes "cache") (codes "dir"))),
    )

  -- The two directories of the default configuration file, where they are not empty.
  abbrev file_config_dir : Option Bytes
  file_config_dir = do
    path ← P.default_config_path
    dirs ← read_config_file_dirs path
    nonempty_text (some dirs.0)

  abbrev file_cache_dir : Option Bytes
  file_cache_dir = do
    path ← P.default_config_path
    dirs ← read_config_file_dirs path
    nonempty_text (some dirs.1)

  -- cli_cache_resolve_config_dir: `none` is -1, where `out` is not filled.
  unfoldable pub resolve_config_dir : Option Bytes → ℕ → Option Bytes
  resolve_config_dir flag out_size = elim (nonempty_text flag) [
    | some s ↦ some (print_into out_size s)
    | none ↦ elim file_config_dir [
      | some s ↦ some (print_into out_size s)
      | none ↦ elim P.default_config_dir [ some s ↦ some (print_into out_size s) | none ↦ none ]
    ]
  ]

  -- The directory whose pending configuration is read.
  unfoldable pub pending_dir : Option Bytes → Option Bytes
  pending_dir config_dir = elim (nonempty_text config_dir) [
    | some s ↦ some s
    | none ↦ resolve_config_dir none buffer_size
  ]

  -- The staged cache directory, if there is one.
  abbrev staged_cache_dir : Option Bytes → Option Bytes
  staged_cache_dir config_dir = do
    dir ← pending_dir config_dir
    pending ← P.pending_cache_dir dir
    pending

  -- cli_cache_resolve_current
  unfoldable pub resolve_current : Option Bytes → Option Bytes → ℕ → Option Bytes
  unfolding pending_dir
  resolve_current from_flag config_dir out_size = elim (nonempty_text from_flag) [
    | some s ↦ some (print_into out_size s)
    | none ↦ elim file_cache_dir [
      | some s ↦ some (print_into out_size s)
      | none ↦ elim (staged_cache_dir config_dir) [
        | some s ↦ some (print_into out_size s)
        | none ↦ elim P.default_cache_dir [ some s ↦ some (print_into out_size s) | none ↦ none ]
      ]
    ]
  ]
