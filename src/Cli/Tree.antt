-- ===== src/Cli/Tree.antt =====
-- The move of a directory tree: `_move_tree` and `cli_cache_move_tree` (src/offs/cli_util.c), on
-- POSIX. A tree has no entries `.` and `..`, which the loop passes over. A move of one file that
-- fails leaves the file where it was, and each path is visited once.
pub mod Lossless
use offs.Base.{
  ℕ, Bool, true, false, not, ◌&&◌, ◌||◌, Option, none, some, List, [], ◌∷◌, ◌++◌, take, leb, length,
  if◌then◌else◌, Bytes, codes,
}
use offs.Cli.Host.{Verify}

mutual
  pub data Entry : Type 0 where
    file : Bytes → Entry
    folder : Entries → Entry

  -- The entries of a directory with their names, as readdir gives them.
  pub data Entries : Type 0 where
    nil : Entries
    cons : Bytes → Entry → Entries → Entries

-- The calls' results.
pub record Files : Type 0 where
  pub opendir : Bytes → Bool
  -- Whether readdir gives the next of these entries; it gives NULL also for an error, which the loop
  -- takes for the end of the directory.
  pub readdir : Bytes → Entries → Bool
  pub stat : Bytes → Bool
  pub mkdir : Bytes → Bool
  -- file_move_verified
  pub move : Bytes → Bytes → Verify → Bool
  pub remove : Bytes → Bool

-- What has come to the destination, what is left in the source, and the path that is reported
-- where the move failed.
pub record Moved : Type 0 where
  pub arrived : Entries
  pub left : Entries
  pub failed : Option Bytes

-- The same of one entry.
pub record MovedEntry : Type 0 where
  pub entry_arrived : Option Entry
  pub entry_left : Option Entry
  pub entry_failed : Option Bytes

abbrev pub child_path : Bytes → Bytes → Bytes
child_path dir name = dir ++ (codes "/" ++ name)

-- sizeof(src_child)
abbrev pub child_size : ℕ
child_size = 1024

abbrev pub too_long : Bytes → Bytes → Bytes → Bool
too_long src dst name =
    leb child_size (length (child_path src name)) || leb child_size (length (child_path dst name))

unfoldable pub put : Bytes → Option Entry → Entries → Entries
put name none rest = rest
put name (some entry) rest = cons name entry rest

-- A failure at the first of these entries.
unfoldable pub stop_at : Bytes → Entries → Moved
stop_at path entries = record { arrived = nil; left = entries; failed = some path }

-- One entry, and what becomes of the rest: it stays where that entry failed.
unfoldable pub join : Bytes → Option Bytes → MovedEntry → Entries → Moved → Moved
join name none e rest moved_rest = record {
  arrived = put name e.entry_arrived moved_rest.arrived;
  left = put name e.entry_left moved_rest.left;
  failed = moved_rest.failed;
}
join name (some path) e rest moved_rest = record {
  arrived = put name e.entry_arrived nil;
  left = put name e.entry_left rest;
  failed = some path;
}

-- A file that was moved or not.
unfoldable pub moved_file : Bool → Bytes → Bytes → MovedEntry
moved_file true contents src_child = record {
  entry_arrived = some (file contents);
  entry_left = none;
  entry_failed = none;
}
moved_file false contents src_child = record {
  entry_arrived = none;
  entry_left = some (file contents);
  entry_failed = some src_child;
}

-- A directory whose entries were moved, as far as they were read: what is left is removed by rm_rf,
-- or not.
unfoldable pub removed_shell : Bool → Bytes → Moved → MovedEntry
removed_shell true src_child m = record {
  entry_arrived = some (folder m.arrived);
  entry_left = none;
  entry_failed = none;
}
removed_shell false src_child m = record {
  entry_arrived = some (folder m.arrived);
  entry_left = some (folder m.left);
  entry_failed = some src_child;
}

-- By the result of the recursion; a deeper failure has been reported.
unfoldable pub moved_inside : Option Bytes → Bool → Bytes → Moved → MovedEntry
moved_inside none removes src_child m = removed_shell removes src_child m
moved_inside (some path) removes src_child m = record {
  entry_arrived = some (folder m.arrived);
  entry_left = some (folder m.left);
  entry_failed = some path;
}

-- By the result of mkdir_p.
unfoldable pub moved_folder : Bool → Entries → Bytes → Bool → Bytes → Moved → MovedEntry
moved_folder true entries dst_child removes src_child m = moved_inside m.failed removes src_child m
moved_folder false entries dst_child removes src_child m = record {
  entry_arrived = none;
  entry_left = some (folder entries);
  entry_failed = some dst_child;
}

-- By the result of opendir.
unfoldable pub opened : Bool → Bytes → Entries → Moved → Moved
opened true src entries m = m
opened false src entries m = stop_at src entries

-- By the tests of one entry before it is moved: the lengths of the paths, and stat.
unfoldable pub checked : Bool → Bool → Bytes → Entries → Moved → Moved
checked true is_there src_child entries m = stop_at (take 1023 src_child) entries
checked false false src_child entries m = stop_at src_child entries
checked false true src_child entries m = m

-- By the result of readdir: the loop may end with entries that were not read.
unfoldable pub listed : Bool → Entries → Moved → Moved
listed true entries m = m
listed false entries m = record { arrived = nil; left = entries; failed = none }

module _ (F : Files) (mode : Verify) where
  unfoldable mutual
    -- The loop over the entries.
    pub move_entries : Bytes → Bytes → Entries → Moved
    move_entries src dst nil = record { arrived = nil; left = nil; failed = none }
    move_entries src dst (cons name entry rest) =
        let e = move_entry (child_path src name) (child_path dst name) entry in
        listed (F.readdir src (cons name entry rest)) (cons name entry rest) (
          checked (too_long src dst name) (F.stat (child_path src name)) (child_path src name)
            (cons name entry rest) (join name e.entry_failed e rest (move_entries src dst rest)))

    -- One entry, at its paths.
    pub move_entry : Bytes → Bytes → Entry → MovedEntry
    move_entry src_child dst_child (file contents) =
        moved_file (F.move src_child dst_child mode) contents src_child
    move_entry src_child dst_child (folder entries) =
        moved_folder (F.mkdir dst_child) entries dst_child (F.remove src_child) src_child (
          opened (F.opendir src_child) src_child entries (move_entries src_child dst_child entries))

  unfoldable pub move_tree : Bytes → Bytes → Entries → Moved
  move_tree src dst entries = opened (F.opendir src) src entries (move_entries src dst entries)

  -- By the result of mkdir_p for the destination.
  unfoldable pub made_dest : Bool → Bytes → Bytes → Entries → Moved
  made_dest true src dst entries = move_tree src dst entries
  made_dest false src dst entries = stop_at dst entries

  unfoldable pub cache_move_tree : Bytes → Bytes → Entries → Moved
  cache_move_tree src dst entries = made_dest (F.mkdir dst) src dst entries
