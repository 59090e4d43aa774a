-- ===== src/Tests/Cache.antt =====
-- The subcommands of `offs cache`, the move of a tree, and the pages of the metrics server.
use offs.Base.{ℕ, true, false, List, [], ◌∷◌, ◌++◌, str_eq, Bytes, codes, ◌≡◌, refl, if◌then◌else◌}
use offs.Cli.Host.{sha256}
use offs.Cli.Cache.Gc.{KeepFile, unopened, sized, GcRequest}
use offs.Cli.Tree.{file, folder, Entries, nil, cons, Files, cache_move_tree}
use offs.Cli.Tree.Lossless.{files, cache_move_tree-lossless}
use offs.Metrics.Status.{Shown}

-- One file is there.
abbrev open_file : Bytes → KeepFile
open_file path = if str_eq path (codes "keep") then sized 3 (codes "url") else unopened

abbrev gc_argv : List Bytes
gc_argv = codes "--from" ∷ codes "keep" ∷ codes "--force" ∷ []

abbrev request : GcRequest
request = record { urls = codes "url"; force = true; defrag = false }

abbrev tree : Entries
tree = cons (codes "a") (file (codes "1")) (
    cons (codes "d") (folder (cons (codes "b") (file (codes "2")) nil))
      (cons (codes "c") (file (codes "3")) nil))

-- Moves that succeed but for one file.
abbrev disk : Bytes → Files
disk bad = record {
  opendir = λ path. true;
  readdir = λ path entries. true;
  stat = λ path. true;
  mkdir = λ path. true;
  move = λ src dst mode. if str_eq src bad then false else true;
  remove = λ path. true;
}

cache_move_tree-lossless_example :
    files (codes "r") tree
    ≡ files
        (codes "r")
        (cache_move_tree (disk (codes "/s/d/b")) sha256 (codes "/s") (codes "/t") tree).arrived
      ++ files
          (codes "r")
          (cache_move_tree (disk (codes "/s/d/b")) sha256 (codes "/s") (codes "/t") tree).left
cache_move_tree-lossless_example =
    cache_move_tree-lossless (disk (codes "/s/d/b")) sha256 (λ dir entries. refl) (codes "/s")
      (codes "/t") (codes "r") tree

abbrev view : Shown ℕ ℕ ℕ
view = record {
  peer_snapshot_count = λ m. 1;
  ring_entry_count = λ m. m;
  total_connections = λ m. m;
  avg_hebbian_weight = λ m. m;
  snapshots = λ m. (9, 1, 2, true, 1 ∷ 1 ∷ 1 ∷ 1 ∷ 1 ∷ 7 ∷ []) ∷ [];
}
