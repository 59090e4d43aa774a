-- ===== src/Cli/Paths.antt =====
-- Cache paths of src/offs/cli_util.c: `_normalize_path` and `cli_cache_paths_conflict`, as they are
-- compiled on POSIX (the separator written is '/').
pub mod Normal
pub mod Components
pub mod Conflicts
use offs.Base.{
  ℕ, ◌-◌, Bool, true, false, ◌&&◌, ◌||◌, Option, none, some, List, [], ◌∷◌, ◌==◌, if◌then◌else◌,
  ◌>>=◌, Bytes,
}

-- `char na[1024], nb[1024]`
abbrev pub path_size : ℕ
path_size = 1024

abbrev pub is_sep : ℕ → Bool
is_sep c = c == b'/' || c == b'\\'

-- The loop of `_normalize_path`: what it still writes for the bytes not yet read. `room` is
-- out_size - 1 - o, and `after_sep` is `o > 0 && out[o - 1] == sep`. `none` is `return 0`.
unfoldable pub normalize_loop : ℕ → Bool → Bytes → Option Bytes
normalize_loop room after_sep [] = some []
normalize_loop room after_sep (c ∷ cs) =
    let skip = is_sep c && after_sep in
    let rest = normalize_loop (if skip then room else room - 1) (is_sep c) cs in
    if skip
    then rest
    else if room == 0
    then none
    else do out ← rest; some ((if is_sep c then b'/' else c) ∷ out)

-- Trailing separators of the bytes behind the first one go.
unfoldable pub strip_tail : Bytes → Bytes
strip_tail [] = []
strip_tail (c ∷ cs) = elim (strip_tail cs) [
  | [] ↦ if c == b'/' then [] else c ∷ []
  | d ∷ ds ↦ c ∷ d ∷ ds
]

-- `while (o > 1 && out[o - 1] == sep) o--`
unfoldable pub strip_trailing : Bytes → Bytes
strip_trailing [] = []
strip_trailing (c ∷ cs) = c ∷ strip_tail cs

unfoldable pub normalize_path : Bytes → ℕ → Option Bytes
normalize_path src out_size = do
  out ← normalize_loop (out_size - 1) false src
  some (strip_trailing out)

-- The results 0, 1 and 2.
pub data Conflict : Type 0 where
  disjoint same nested : Conflict

-- The comparison of the two normalized paths, and the test of the byte behind the shorter one.
unfoldable pub compare_paths : Bytes → Bytes → Conflict
compare_paths [] [] = same
compare_paths [] (d ∷ ds) = if d == b'/' then nested else disjoint
compare_paths (c ∷ cs) [] = if c == b'/' then nested else disjoint
compare_paths (c ∷ cs) (d ∷ ds) = if c == d then compare_paths cs ds else disjoint

abbrev conflict_normalized : Option Bytes → Option Bytes → Conflict
conflict_normalized (some na) (some nb) = compare_paths na nb
conflict_normalized none _ = nested
conflict_normalized _ none = nested

unfoldable pub paths_conflict : Bytes → Bytes → Conflict
paths_conflict a b = conflict_normalized (normalize_path a path_size) (normalize_path b path_size)
