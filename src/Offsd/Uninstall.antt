-- ===== src/Offsd/Uninstall.antt =====
-- `offsd uninstall`: `_run_uninstall` (src/offsd/main.c).
pub mod Arguments
pub mod Chosen
use offs.Base.{
  ℕ, Bool, true, false, not, ◌&&◌, ◌||◌, Option, none, some, List, [], ◌∷◌, ◌++◌, Bytes, codes,
  str_eq, if◌then◌else◌, ◌≡◌, ◌⊎◌, refl, inl, inr, All, arith, Bool-cases,
}
use offs.Offsd.Life.{Trace, removed_dir}

pub record Choice : Type 0 where
  pub remove_config : Bool
  pub remove_cache : Bool
  pub config_dir : Option Bytes
  pub cache_dir : Option Bytes

abbrev pub no_choice : Choice
no_choice = record {
  remove_config = false;
  remove_cache = false;
  config_dir = none;
  cache_dir = none;
}

pub data UninstallWord : Type 0 where
  config_word cache_word config_dir_word cache_dir_word unknown_word : UninstallWord

unfoldable pub uninstall_word : Bytes → UninstallWord
uninstall_word arg =
    if str_eq arg (codes "--config")
    then config_word
    else if str_eq arg (codes "--cache")
    then cache_word
    else if str_eq arg (codes "--config-dir")
    then config_dir_word
    else if str_eq arg (codes "--cache-dir")
    then cache_dir_word
    else unknown_word

-- The loop over the arguments behind the subcommand's name; `none` for an unknown option.
unfoldable pub parse_uninstall : List Bytes → Choice → Option Choice
parse_uninstall [] c = some c
parse_uninstall (arg ∷ []) c = elim (uninstall_word arg) [
  | config_word ↦ some (record c { remove_config = true })
  | cache_word ↦ some (record c { remove_cache = true })
  | config_dir_word ↦ none
  | cache_dir_word ↦ none
  | unknown_word ↦ none
]
parse_uninstall (arg ∷ value ∷ argv) c = elim (uninstall_word arg) [
  | config_word ↦ parse_uninstall (value ∷ argv) (record c { remove_config = true })
  | cache_word ↦ parse_uninstall (value ∷ argv) (record c { remove_cache = true })
  | config_dir_word ↦ parse_uninstall argv (record c { config_dir = some value })
  | cache_dir_word ↦ parse_uninstall argv (record c { cache_dir = some value })
  | unknown_word ↦ none
]

-- Directories that are there, calls of rm_rf, and offs_default_dirs_get: the configuration's and the
-- cache's.
pub record Disk : Type 0 where
  pub is_there : Trace → Bytes → Bool
  pub rm_rf : Trace → Bytes → Bool
  pub default_dirs : Option (Bytes × Bytes)

abbrev pub given : Option Bytes → Bytes → Bytes
given none dir = dir
given (some path) dir = path

module _ (D : Disk) where
  -- A directory that is there is removed: whether that failed, and the trace.
  unfoldable pub remove_there : Bool → Bytes → Trace → Bool × Trace
  remove_there false dir t = (false, t)
  remove_there true dir t = let ok = D.rm_rf t dir in (not ok, removed_dir dir ok ∷ t)

  -- A directory that is chosen.
  unfoldable pub remove_chosen : Bool → Bytes → Trace → Bool × Trace
  remove_chosen false dir t = (false, t)
  remove_chosen true dir t = remove_there (D.is_there t dir) dir t

  -- The cache, and then the configuration.
  unfoldable pub remove_both : Choice → Bytes → Bytes → Trace → ℕ × Trace
  remove_both c config_dir cache_dir t =
      let (cache_failed, longer) = remove_chosen c.remove_cache cache_dir t in
      let (config_failed, end) = remove_chosen c.remove_config config_dir longer in
      (if cache_failed || config_failed then 1 else 0, end)

  -- From offs_default_dirs_get on.
  unfoldable pub with_defaults : Option (Bytes × Bytes) → Choice → Trace → ℕ × Trace
  with_defaults none c t = (1, t)
  with_defaults (some (config_dir, cache_dir)) c t =
      remove_both c (given c.config_dir config_dir) (given c.cache_dir cache_dir) t

  -- From the test of the choice on.
  unfoldable pub uninstall_chosen : Option Choice → Trace → ℕ × Trace
  uninstall_chosen none t = (1, t)
  uninstall_chosen (some c) t =
      if not c.remove_config && not c.remove_cache then (1, t) else with_defaults D.default_dirs c t

  unfoldable pub run_uninstall : List Bytes → Trace → ℕ × Trace
  run_uninstall argv t = uninstall_chosen (parse_uninstall argv no_choice) t
