-- ===== src/Updater.antt =====
-- The updater (src/Updater/updater_main.c) on POSIX. The service's operations, `execl` and the shell
-- are parameters that answer by the steps before; the log's lines are steps.
pub mod Copy
pub mod Ends
pub mod OnLinux
pub mod Order
use offs.Base.{
  ℕ, Bool, true, false, not, Option, none, some, List, [], ◌∷◌, ◌++◌, Bytes, codes, str_eq, take,
  if◌then◌else◌,
}
use offs.Service.{ServiceResult, result_ok, result_error, result_timeout, not_installed}

-- What main does to the service, the files and the log.
pub data Step : Type 0 where
  made_pid_file removed_pid_file : Step
  stopped started : Step
  waited_stop waited_start : ServiceResult → Step
  asked_running : Bool → Step
  copied : Bytes → Bytes → Step
  made_executable : Bytes → Step
  restored : Bytes → Step
  logged : Bytes → Step

-- The steps, latest first.
abbrev pub Steps : Type 0
Steps = List Step

pub record Services : Type 0 where
  pub wait_for_stop : Steps → ℕ → ServiceResult
  pub wait_for_start : Steps → ℕ → ServiceResult
  pub is_running : Steps → Bool
  -- Whether the copy of the updater could be executed.
  pub execl : Steps → Bool
  -- Whether the status of the shell's copy is 0.
  pub restores : Steps → Bool

-- `--finish`, and the three directories.
pub data UpdaterArgs : Type 0 where
  updater_args : Bool → Option Bytes → Option Bytes → Option Bytes → UpdaterArgs

unfoldable pub take_dir : Bytes → UpdaterArgs → UpdaterArgs
take_dir arg (updater_args f none i b) = updater_args f (some arg) i b
take_dir arg (updater_args f (some s) none b) = updater_args f (some s) (some arg) b
take_dir arg (updater_args f (some s) (some i) none) = updater_args f (some s) (some i) (some arg)
take_dir arg (updater_args f (some s) (some i) (some b)) = updater_args f (some s) (some i) (some b)

unfoldable pub set_finish : UpdaterArgs → UpdaterArgs
set_finish (updater_args f s i b) = updater_args true s i b

unfoldable pub take_arg : Bytes → UpdaterArgs → UpdaterArgs
take_arg arg a = if str_eq arg (codes "--finish") then set_finish a else take_dir arg a

unfoldable pub parse_updater : List Bytes → UpdaterArgs → UpdaterArgs
parse_updater [] a = a
parse_updater (arg ∷ argv) a = parse_updater argv (take_arg arg a)

-- main's end: the exit status, or the program that takes over with its arguments.
pub data Updated : Type 0 where
  exits : ℕ → Steps → Updated
  replaced : Bytes → List Bytes → Steps → Updated

-- snprintf into 1024 bytes.
unfoldable pub file_in : Bytes → Bytes → Bytes
file_in dir name = take 1023 (dir ++ codes "/" ++ name)

unfoldable pub copy_to : Bytes → Bytes → Bytes → Steps → Steps
copy_to staging install name steps = copied (file_in staging name) (file_in install name) ∷ steps

-- The loop over `files`.
unfoldable pub copy_files : Bytes → Bytes → Steps → Steps
copy_files staging install steps =
    copy_to staging install (codes "offs-cli") (copy_to staging install (codes "offs-daemon") steps)

unfoldable pub temp_updater : Bytes
temp_updater = codes "/tmp/offs-updater-temp"

module _ (S : Services) (staging install backup : Bytes) where
  -- The shell's command, in 2048 bytes.
  unfoldable pub restore_command : Bytes → Bytes
  restore_command backup_prev = take 2047 (
      codes "cp -r \""
      ++ backup_prev
      ++ codes "\"/* \""
      ++ install
      ++ codes "\" 2>/dev/null || true")

  -- By the status of the copy; the source's ends in `|| true`.
  unfoldable pub restore_done : Bool → Steps → Steps
  restore_done true steps = steps
  restore_done false steps = logged (codes "WARNING: backup restore may be incomplete") ∷ steps

  unfoldable pub restore_backup : Steps → Steps
  restore_backup steps =
      let steps' =
        restored (restore_command (take 1023 (backup ++ codes "/previous")))
        ∷ logged (codes "Restoring from backup")
        ∷ steps in
      restore_done (S.restores steps') steps'

  -- svc->stop, and the wait for it, 30 s.
  unfoldable pub stop_service : Steps → Steps
  stop_service steps = waited_stop (S.wait_for_stop (stopped ∷ steps) 30000) ∷ stopped ∷ steps

  unfoldable pub start_service : Steps → Steps
  start_service steps = waited_start (S.wait_for_start (started ∷ steps) 30000) ∷ started ∷ steps

  unfoldable pub roll_back : Steps → Steps
  roll_back steps =
      logged (codes "Rollback complete")
      ∷ start_service (restore_backup (stop_service (logged (codes "Rolling back") ∷ steps)))

  -- By the value of daemon_ok.
  unfoldable pub conclude : Bool → Steps → Updated
  conclude true steps = exits 0 (removed_pid_file ∷ logged (codes "Update complete") ∷ steps)
  conclude false steps = exits 1 (removed_pid_file ∷ roll_back steps)

  unfoldable pub start_message : ServiceResult → Bytes
  start_message result_ok = codes "Daemon started successfully"
  start_message result_error = codes "ERROR: Daemon failed to start within timeout"
  start_message result_timeout = codes "ERROR: Daemon failed to start within timeout"
  start_message not_installed = codes "ERROR: Daemon failed to start within timeout"

  -- From the start of the service on, with the result of the wait.
  unfoldable pub check_daemon : Steps → Updated
  check_daemon steps = let up = S.is_running steps in conclude up (asked_running up ∷ steps)

  unfoldable pub restart_daemon : Steps → Updated
  restart_daemon steps =
      let steps' = started ∷ logged (codes "Starting daemon service") ∷ steps in
      let result = S.wait_for_start steps' 30000 in
      check_daemon (logged (start_message result) ∷ waited_start result ∷ steps')

  -- By whether execl failed.
  unfoldable pub executed : Bool → Steps → Updated
  executed true steps =
      replaced temp_updater (codes "--finish" ∷ staging ∷ install ∷ backup ∷ []) steps
  executed false steps = restart_daemon (
      logged (codes "ERROR: exec of temp updater failed, attempting direct service restart")
      ∷ steps)

  unfoldable pub self_replace : Steps → Updated
  self_replace steps =
      let steps' =
        logged (codes "Self-replacing via temp copy")
        ∷ made_executable temp_updater
        ∷ copied (file_in staging (codes "offs-updater")) temp_updater
        ∷ steps in
      executed (S.execl steps') steps'

  unfoldable pub not_stopped : Steps → Updated
  not_stopped steps = exits 1 (logged (codes "Timeout waiting for daemon to stop") ∷ steps)

  -- By the result of the wait for the stop.
  unfoldable pub replace_files : ServiceResult → Steps → Updated
  replace_files result_ok steps =
      self_replace (copy_files staging install (logged (codes "Daemon stopped") ∷ steps))
  replace_files result_error steps = not_stopped steps
  replace_files result_timeout steps = not_stopped steps
  replace_files not_installed steps = not_stopped steps

  unfoldable pub update_from : Bool → Steps → Updated
  update_from true steps = restart_daemon (
      copy_files staging install (
        copy_to staging install (codes "offs-updater")
          (logged (codes "Updater starting (finish mode)") ∷ steps)))
  update_from false steps =
      let steps' =
        stopped
        ∷ logged (codes "Stopping daemon service")
        ∷ logged (codes "Updater starting")
        ∷ steps in
      let result = S.wait_for_stop steps' 30000 in
      replace_files result (waited_stop result ∷ steps')

module _ (S : Services) where
  -- With the arguments: the usage, unless all the directories are given.
  unfoldable pub run_updater : UpdaterArgs → Updated
  run_updater (updater_args f none i b) = exits 1 []
  run_updater (updater_args f (some s) none b) = exits 1 []
  run_updater (updater_args f (some s) (some i) none) = exits 1 []
  run_updater (updater_args f (some s) (some i) (some b)) =
      update_from S s i b f (made_pid_file ∷ [])

  -- main; the arguments without the program's name.
  unfoldable pub updater_main : List Bytes → Updated
  updater_main argv = run_updater (parse_updater argv (updater_args false none none none))
