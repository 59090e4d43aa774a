-- ===== src/Updater/Ends.antt =====
-- How a run of the updater ends (src/Updater/updater_main.c).
use offs.Base.{
  zero, suc, Bool, true, false, not, ◌&&◌, ◌||◌, Option, none, some, List, [], ◌∷◌, ◌++◌, subst,
  append-nil, append_assoc, take, Bytes, codes, str_eq, str_eq_refl, if◌then◌else◌, ◌≡◌, refl,
  arith, Bool-cases, inl, inr,
}
use offs.Service.{ServiceResult, result_ok, result_error, result_timeout, not_installed}
use offs.Updater.{
  Steps, started, asked_running, copied, restored, Services, UpdaterArgs, updater_args, set_finish,
  take_dir, take_arg, parse_updater, Updated, restore_command, exits, replaced, restore_done,
  restore_backup, stop_service, start_service, roll_back, conclude, check_daemon, restart_daemon,
  executed, self_replace, not_stopped, replace_files, update_from, run_updater, updater_main,
}

-- The last answer whether the daemon runs, with no start or restoring behind it.
unfoldable pub runs_last : Steps → Option Bool
runs_last [] = none
runs_last (asked_running up ∷ steps) = some up
runs_last (started ∷ steps) = none
runs_last (restored command ∷ steps) = none
runs_last (_ ∷ steps) = runs_last steps

unfoldable pub is_up : Option Bool → Bool
is_up none = false
is_up (some up) = up

unfoldable pub is_not_up : Option Bool → Bool
is_not_up none = false
is_not_up (some up) = not up

-- The shell's command that copies all from `previous` in the backup directory into the installation,
-- with the cuts of the two buffers.
unfoldable pub copy_back : Bytes → Bytes → Bytes
copy_back install backup =
    let previous = take 1023 (backup ++ codes "/previous") in
    take 2047
      (codes "cp -r \"" ++ previous ++ codes "\"/* \"" ++ install ++ codes "\" 2>/dev/null || true")

-- That command was run because the daemon did not run.
unfoldable pub was_restored : Bytes → Bytes → Steps → Bool
was_restored install backup [] = false
was_restored install backup (restored command ∷ steps) =
    str_eq command (copy_back install backup) && is_not_up (runs_last steps)
was_restored install backup (started ∷ steps) = false
was_restored install backup (_ ∷ steps) = was_restored install backup steps

-- And the service was started behind that.
unfoldable pub is_rolled_back : Bytes → Bytes → Steps → Bool
is_rolled_back install backup [] = false
is_rolled_back install backup (started ∷ steps) = was_restored install backup steps
is_rolled_back install backup (_ ∷ steps) = is_rolled_back install backup steps

-- No file was copied, and the service not started.
unfoldable pub is_untouched : Steps → Bool
is_untouched [] = true
is_untouched (copied from to ∷ steps) = false
is_untouched (started ∷ steps) = false
is_untouched (restored command ∷ steps) = false
is_untouched (_ ∷ steps) = is_untouched steps

-- With the directories of the installation and of the backup.
unfoldable pub is_accounted : Bytes → Bytes → Updated → Bool
is_accounted install backup (exits zero steps) = is_up (runs_last steps)
is_accounted install backup (exits (suc status) steps) =
    is_untouched steps || is_rolled_back install backup steps
is_accounted install backup (replaced program argv steps) = true

-- The arguments but `--finish`: the directories of the staged files, of the installation, and of the
-- backup.
unfoldable pub operands : List Bytes → List Bytes
operands [] = []
operands (arg ∷ argv) =
    let rest = operands argv in if str_eq arg (codes "--finish") then rest else arg ∷ rest

unfoldable pub second : List Bytes → Bytes
second (first ∷ dir ∷ dirs) = dir
second _ = []

unfoldable pub third : List Bytes → Bytes
third (first ∷ next ∷ dir ∷ dirs) = dir
third _ = []

-- The directories that the parser has, of those it was given.
data Filled : UpdaterArgs → List Bytes → Type 0 where
  nothing : {f : Bool} → Filled (updater_args f none none none) []
  one : {f : Bool} {s : Bytes} → Filled (updater_args f (some s) none none) (s ∷ [])
  two : {f : Bool} {s i : Bytes} → Filled (updater_args f (some s) (some i) none) (s ∷ i ∷ [])
  three :
      {f : Bool} {s i b : Bytes} (dirs : List Bytes)
      → Filled (updater_args f (some s) (some i) (some b)) (s ∷ i ∷ b ∷ dirs)

set_finish-Filled :
    {a : UpdaterArgs} {dirs : List Bytes} → Filled a dirs → Filled (set_finish a) dirs
unfolding set_finish
set_finish-Filled nothing = nothing
set_finish-Filled one = one
set_finish-Filled two = two
set_finish-Filled (three dirs) = three dirs

take_dir-Filled :
    (arg : Bytes) {a : UpdaterArgs} {dirs : List Bytes}
    → Filled a dirs
    → Filled (take_dir arg a) (dirs ++ (arg ∷ []))
unfolding take_dir
take_dir-Filled arg nothing = one
take_dir-Filled arg one = two
take_dir-Filled arg two = three []
take_dir-Filled arg (three dirs) = three (dirs ++ (arg ∷ []))

parse_updater-Filled :
    (argv : List Bytes) (a : UpdaterArgs) (dirs : List Bytes)
    → Filled a dirs
    → Filled (parse_updater argv a) (dirs ++ operands argv)
unfolding parse_updater take_arg operands
parse_updater-Filled [] a dirs filled = rw (append-nil dirs) filled
parse_updater-Filled (arg ∷ argv) a dirs filled =
    elim (Bool-cases (str_eq arg (codes "--finish"))) [
      | inl e ↦ rw e (parse_updater-Filled argv _ dirs (set_finish-Filled filled))
      | inr e ↦ rw e (
          subst (Filled _) (append_assoc dirs (arg ∷ []) (operands argv))
            (parse_updater-Filled argv _ _ (take_dir-Filled arg filled)))
    ]

module _ (S : Services) (staging install backup : Bytes) where
  restore_done-was_restored :
      (done : Bool) (steps : Steps)
      → was_restored install backup steps ≡ true
      → was_restored install backup (restore_done S staging install backup done steps) ≡ true
  unfolding restore_done was_restored
  restore_done-was_restored true steps h = h
  restore_done-was_restored false steps h = h

  roll_back_lem :
      (steps : Steps)
      → is_not_up (runs_last steps) ≡ true
      → is_rolled_back install backup (roll_back S staging install backup steps) ≡ true
  unfolding roll_back start_service restore_backup restore_command stop_service is_rolled_back
      was_restored copy_back runs_last
  roll_back_lem steps h =
      restore_done-was_restored _ _ (rw (str_eq_refl (copy_back install backup)) h)

  conclude-is_accounted :
      (up : Bool) (steps : Steps)
      → is_accounted install backup
          (conclude S staging install backup up (asked_running up ∷ steps))
        ≡ true
  unfolding conclude is_accounted runs_last is_up is_rolled_back is_not_up
  conclude-is_accounted true steps = refl
  conclude-is_accounted false steps =
      ground (arith, roll_back_lem (asked_running false ∷ steps) refl)

  restart_daemon-is_accounted :
      (steps : Steps)
      → is_accounted install backup (restart_daemon S staging install backup steps) ≡ true
  unfolding restart_daemon check_daemon
  restart_daemon-is_accounted steps = conclude-is_accounted _ _

  executed-is_accounted :
      (failed : Bool) (steps : Steps)
      → is_accounted install backup (executed S staging install backup failed steps) ≡ true
  unfolding executed is_accounted
  executed-is_accounted true steps = refl
  executed-is_accounted false steps = restart_daemon-is_accounted _

  replace_files-is_accounted :
      (result : ServiceResult) (steps : Steps)
      → is_untouched steps ≡ true
      → is_accounted install backup (replace_files S staging install backup result steps) ≡ true
  unfolding replace_files self_replace not_stopped is_accounted is_untouched
  replace_files-is_accounted result_ok steps h = executed-is_accounted _ _
  replace_files-is_accounted result_error steps h = ground arith
  replace_files-is_accounted result_timeout steps h = ground arith
  replace_files-is_accounted not_installed steps h = ground arith

  update_from-is_accounted :
      (finish : Bool) (steps : Steps)
      → is_untouched steps ≡ true
      → is_accounted install backup (update_from S staging install backup finish steps) ≡ true
  unfolding update_from is_untouched
  update_from-is_accounted true steps h = restart_daemon-is_accounted _
  update_from-is_accounted false steps h = replace_files-is_accounted _ _ h

run_updater-is_accounted :
    (S : Services) (a : UpdaterArgs) (dirs : List Bytes)
    → Filled a dirs
    → is_accounted (second dirs) (third dirs) (run_updater S a) ≡ true
unfolding run_updater is_accounted is_untouched second third
run_updater-is_accounted S a dirs nothing = refl
run_updater-is_accounted S a dirs one = refl
run_updater-is_accounted S a dirs two = refl
run_updater-is_accounted S (updater_args f (some s) (some i) (some b)) dirs (three more) =
    update_from-is_accounted S s i b f _ refl

-- Every run of the updater, on any system and with any arguments: where its exit status is 0 the
-- service's last answer is that the daemon runs, with no start and no restoring behind it; where it
-- is another, either no file was copied and the service not started, or the daemon did not run, for
-- that the command was run that copies what is in `previous`, of the third directory given, into the
-- second (whatever came of it), and the service was started again. Or the copy of the updater has
-- taken over.
pub updater_main-is_accounted :
    (S : Services) (argv : List Bytes)
    → is_accounted (second (operands argv)) (third (operands argv)) (updater_main S argv) ≡ true
unfolding updater_main
updater_main-is_accounted S argv =
    run_updater-is_accounted S _ (operands argv) (parse_updater-Filled argv _ [] nothing)
