-- ===== src/Cli/Tree/Lossless.antt =====
-- A move of a tree loses no file (src/offs/cli_util.c).
use offs.Base.{
  Bool, true, false, Option, none, some, List, [], ◌∷◌, ◌++◌, Bytes, ◌≡◌, refl, sym, ap, ◌∙◌,
  append-nil, append_assoc, arith,
}
use offs.Cli.Host.{Verify}
use offs.Cli.Tree.{
  Entry, file, folder, Entries, nil, cons, Files, Moved, MovedEntry, child_path, too_long, put,
  stop_at, join, moved_file, removed_shell, moved_inside, moved_folder, opened, checked, listed,
  move_entries, move_entry, move_tree, made_dest, cache_move_tree,
}

-- The files of a tree with their paths below a directory.
unfoldable mutual
  pub files : Bytes → Entries → List (Bytes × Bytes)
  files dir nil = []
  files dir (cons name entry rest) = files_of (child_path dir name) entry ++ files dir rest

  pub files_of : Bytes → Entry → List (Bytes × Bytes)
  files_of path (file contents) = (path, contents) ∷ []
  files_of path (folder entries) = files path entries

abbrev files_at : Bytes → Option Entry → List (Bytes × Bytes)
files_at path none = []
files_at path (some entry) = files_of path entry

-- The files of what has arrived and of what is left are those that were there, in their order, and
-- where the move did not fail nothing is left.
data Keeps (dir : Bytes) (entries : Entries) (m : Moved) : Type 0 where
  keeps :
      files dir entries ≡ files dir m.arrived ++ files dir m.left
      → (m.failed ≡ none → m.left ≡ nil)
      → Keeps dir entries m

-- The same of one entry.
data KeepsEntry (path : Bytes) (entry : Entry) (e : MovedEntry) : Type 0 where
  keeps_entry :
      files_of path entry ≡ files_at path e.entry_arrived ++ files_at path e.entry_left
      → (e.entry_failed ≡ none → e.entry_left ≡ none)
      → KeepsEntry path entry e

files-put :
    (dir name : Bytes) (entry : Option Entry) (rest : Entries)
    → files dir (put name entry rest) ≡ files_at (child_path dir name) entry ++ files dir rest
unfolding files put
files-put dir name none rest = refl
files-put dir name (some entry) rest = refl

stop_at-Keeps : (dir path : Bytes) (entries : Entries) → Keeps dir entries (stop_at path entries)
unfolding stop_at files
stop_at-Keeps dir path entries = keeps refl (λ e. absurd (ground arith))

checked-Keeps :
    (long is_there : Bool) (path dir : Bytes) (entries : Entries) (m : Moved)
    → Keeps dir entries m
    → Keeps dir entries (checked long is_there path entries m)
unfolding checked
checked-Keeps true is_there path dir entries m kept = stop_at-Keeps dir _ entries
checked-Keeps false false path dir entries m kept = stop_at-Keeps dir _ entries
checked-Keeps false true path dir entries m kept = kept

listed-Keeps :
    (reads : Bool) (dir : Bytes) (entries : Entries) (m : Moved)
    → reads ≡ true
    → Keeps dir entries m
    → Keeps dir entries (listed reads entries m)
unfolding listed
listed-Keeps true dir entries m h kept = kept
listed-Keeps false dir entries m h kept = absurd (ground arith)

opened-Keeps :
    (opens : Bool) (src dir : Bytes) (entries : Entries) (m : Moved)
    → Keeps dir entries m
    → Keeps dir entries (opened opens src entries m)
unfolding opened
opened-Keeps true src dir entries m kept = kept
opened-Keeps false src dir entries m kept = stop_at-Keeps dir src entries

moved_file-KeepsEntry :
    (ok : Bool) (contents src_child path : Bytes)
    → KeepsEntry path (file contents) (moved_file ok contents src_child)
unfolding moved_file files
moved_file-KeepsEntry true contents src_child path = keeps_entry refl (λ e. refl)
moved_file-KeepsEntry false contents src_child path = keeps_entry refl (λ e. absurd (ground arith))

removed_shell-KeepsEntry :
    (ok : Bool) (src_child path : Bytes) (entries : Entries) (m : Moved)
    → m.left ≡ nil
    → files path entries ≡ files path m.arrived ++ files path m.left
    → KeepsEntry path (folder entries) (removed_shell ok src_child m)
unfolding removed_shell files
removed_shell-KeepsEntry true src_child path entries m empty kept =
    keeps_entry (kept ∙ ap (λ rest. files path m.arrived ++ files path rest) empty) (λ e. refl)
removed_shell-KeepsEntry false src_child path entries m empty kept =
    keeps_entry kept (λ e. absurd (ground arith))

moved_inside-KeepsEntry :
    (failed : Option Bytes) (removes : Bool) (src_child path : Bytes) (entries : Entries)
    (m : Moved)
    → (failed ≡ none → m.left ≡ nil)
    → files path entries ≡ files path m.arrived ++ files path m.left
    → KeepsEntry path (folder entries) (moved_inside failed removes src_child m)
unfolding moved_inside files
moved_inside-KeepsEntry none removes src_child path entries m done kept =
    removed_shell-KeepsEntry removes src_child path entries m (done refl) kept
moved_inside-KeepsEntry (some p) removes src_child path entries m done kept =
    keeps_entry kept (λ e. absurd (ground arith))

moved_folder-KeepsEntry :
    (made removes : Bool) (dst_child src_child path : Bytes) (entries : Entries) (m : Moved)
    → Keeps path entries m
    → KeepsEntry path (folder entries) (moved_folder made entries dst_child removes src_child m)
unfolding moved_folder
moved_folder-KeepsEntry true removes dst_child src_child path entries m (keeps kept done) =
    moved_inside-KeepsEntry m.failed removes src_child path entries m done kept
moved_folder-KeepsEntry false removes dst_child src_child path entries m kept =
    keeps_entry refl (λ e. absurd (ground arith))

glue : {a c b d : List (Bytes × Bytes)} → a ≡ c → b ≡ d → a ++ b ≡ c ++ d
glue e f = rw (e, f) refl

swap_empty : (a l b c : List (Bytes × Bytes)) → l ≡ [] → (a ++ l) ++ (b ++ c) ≡ (a ++ b) ++ (l ++ c)
swap_empty a l b c e = rw e (simp (append-nil, append_assoc) refl)

tail_empty : (a l r : List (Bytes × Bytes)) → (a ++ l) ++ r ≡ (a ++ []) ++ (l ++ r)
tail_empty a l r = simp (append-nil, append_assoc) refl

join-Keeps :
    (name dir : Bytes) (failed : Option Bytes) (entry : Entry) (e : MovedEntry) (rest : Entries)
    (m : Moved)
    → e.entry_failed ≡ failed
    → KeepsEntry (child_path dir name) entry e
    → Keeps dir rest m
    → Keeps dir (cons name entry rest) (join name failed e rest m)
unfolding join files put
join-Keeps name dir none entry e rest m ok (keeps_entry kept done) (keeps kept_rest done_rest) =
    keeps
      (glue kept kept_rest
        ∙ swap_empty (files_at (child_path dir name) e.entry_arrived) _ (files dir m.arrived)
            (files dir m.left) (ap (files_at (child_path dir name)) (done ok))
        ∙ sym (
            glue (files-put dir name e.entry_arrived m.arrived)
              (files-put dir name e.entry_left m.left)))
      (λ whole. ap (λ o. put name o m.left) (done ok) ∙ done_rest whole)
join-Keeps name dir (some p) entry e rest m ok (keeps_entry kept done) (keeps kept_rest done_rest) =
    keeps
      (ap (λ x. x ++ files dir rest) kept
        ∙ tail_empty (files_at (child_path dir name) e.entry_arrived) _ (files dir rest)
        ∙ sym
            (glue (files-put dir name e.entry_arrived nil) (files-put dir name e.entry_left rest)))
      (λ e. absurd (ground arith))

kept_of :
    {dir : Bytes} {entries : Entries} {m : Moved}
    → Keeps dir entries m
    → (files dir entries ≡ files dir m.arrived ++ files dir m.left)
      × (m.failed ≡ none → m.left ≡ nil)
kept_of (keeps kept done) = (kept, done)

module _ (F : Files) (mode : Verify)
    (reads : (dir : Bytes) (entries : Entries) → F.readdir dir entries ≡ true) where
  mutual
    unfolding move_entries files

    move_entries-Keeps :
        (src dst dir : Bytes) (entries : Entries)
        → Keeps dir entries (move_entries F mode src dst entries)
    move_entries-Keeps src dst dir nil = keeps refl (λ e. refl)
    move_entries-Keeps src dst dir (cons name entry rest) =
        listed-Keeps _ dir _ _ (reads src (cons name entry rest)) (
          checked-Keeps (too_long src dst name) (F.stat (child_path src name)) (child_path src name)
            dir _ _
            (join-Keeps name dir _ entry _ rest _ refl
              (move_entry-KeepsEntry (child_path src name) (child_path dst name)
                (child_path dir name) entry)
              (move_entries-Keeps src dst dir rest)))

    move_entry-KeepsEntry :
        (src_child dst_child path : Bytes) (entry : Entry)
        → KeepsEntry path entry (move_entry F mode src_child dst_child entry)
    move_entry-KeepsEntry src_child dst_child path (file contents) =
        moved_file-KeepsEntry (F.move src_child dst_child mode) contents src_child path
    move_entry-KeepsEntry src_child dst_child path (folder entries) =
        moved_folder-KeepsEntry (F.mkdir dst_child) (F.remove src_child) dst_child src_child path
          entries _
          (opened-Keeps (F.opendir src_child) src_child path entries _
            (move_entries-Keeps src_child dst_child path entries))

  made_dest-Keeps :
      (made : Bool) (src dst dir : Bytes) (entries : Entries)
      → Keeps dir entries (made_dest F mode made src dst entries)
  unfolding made_dest move_tree
  made_dest-Keeps true src dst dir entries =
      opened-Keeps (F.opendir src) src dir entries _ (move_entries-Keeps src dst dir entries)
  made_dest-Keeps false src dst dir entries = stop_at-Keeps dir dst entries

  -- Where readdir fails in no directory, at whatever other call the move fails, no file is lost or moved twice: the files at the destination and
  -- those left in the source are together, in their order and with their paths and contents, the
  -- files that were there.
  pub cache_move_tree-lossless :
      (src dst dir : Bytes) (entries : Entries)
      → files dir entries
        ≡ files dir (cache_move_tree F mode src dst entries).arrived
          ++ files dir (cache_move_tree F mode src dst entries).left
  unfolding cache_move_tree
  cache_move_tree-lossless src dst dir entries =
      (kept_of (made_dest-Keeps (F.mkdir dst) src dst dir entries)).0

  -- Where readdir fails in no directory, a move that reports no failed path has left nothing in the source, and all files have arrived
  -- with their paths and contents.
  pub cache_move_tree_complete :
      (src dst dir : Bytes) (entries : Entries)
      → (cache_move_tree F mode src dst entries).failed ≡ none
      → ((cache_move_tree F mode src dst entries).left ≡ nil)
        × (files dir (cache_move_tree F mode src dst entries).arrived ≡ files dir entries)
  unfolding cache_move_tree files
  cache_move_tree_complete src dst dir entries ok =
      let (kept, done) = kept_of (made_dest-Keeps (F.mkdir dst) src dst dir entries) in
      (
        done ok,
        sym (
            kept
            ∙ ap
                (λ rest.
                  files dir (made_dest F mode (F.mkdir dst) src dst entries).arrived
                  ++ files dir rest)
                (done ok)
            ∙ append-nil _),
      )
