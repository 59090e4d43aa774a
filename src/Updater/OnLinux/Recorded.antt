-- ===== src/Updater/OnLinux/Recorded.antt =====
-- The results that the updater's steps record (src/Updater/updater_main.c).
use offs.Base.{Bool, true, false, none, some, [], ◌∷◌, Bytes, codes, ◌≡◌, refl}
use offs.Service.{ServiceResult, result_ok, result_error, result_timeout, not_installed}
use offs.Updater.{
  Steps, made_pid_file, removed_pid_file, stopped, started, waited_stop, waited_start,
  asked_running, copied, made_executable, restored, logged, Services, UpdaterArgs, updater_args,
  copy_to, copy_files, restore_done, restore_backup, stop_service, start_service, roll_back,
  conclude, check_daemon, restart_daemon, executed, self_replace, not_stopped, replace_files,
  update_from, run_updater,
}
use offs.Updater.Order.{steps_of}

-- The steps record the results of the waits for the stop.
module _ (S : Services) where
  unfoldable pub IsRecorded : Steps → Type 0
  IsRecorded [] = Unit {0}
  IsRecorded (waited_stop r ∷ steps) = (r ≡ S.wait_for_stop steps 30000) × IsRecorded steps
  IsRecorded (stopped ∷ steps) = IsRecorded steps
  IsRecorded (started ∷ steps) = IsRecorded steps
  IsRecorded (waited_start r ∷ steps) = IsRecorded steps
  IsRecorded (asked_running up ∷ steps) = IsRecorded steps
  IsRecorded (made_pid_file ∷ steps) = IsRecorded steps
  IsRecorded (removed_pid_file ∷ steps) = IsRecorded steps
  IsRecorded (copied from to ∷ steps) = IsRecorded steps
  IsRecorded (made_executable path ∷ steps) = IsRecorded steps
  IsRecorded (restored command ∷ steps) = IsRecorded steps
  IsRecorded (logged message ∷ steps) = IsRecorded steps

  module _ (staging install backup : Bytes) where
    restore_done-IsRecorded :
        (done : Bool) (steps : Steps)
        → IsRecorded steps
        → IsRecorded (restore_done S staging install backup done steps)
    unfolding restore_done IsRecorded
    restore_done-IsRecorded true steps h = h
    restore_done-IsRecorded false steps h = h

    conclude-IsRecorded :
        (up : Bool) (steps : Steps)
        → IsRecorded steps
        → IsRecorded (steps_of (conclude S staging install backup up steps))
    unfolding conclude steps_of IsRecorded roll_back start_service restore_backup stop_service
    conclude-IsRecorded true steps h = h
    conclude-IsRecorded false steps h = restore_done-IsRecorded _ _ (refl, h)

    restart_daemon-IsRecorded :
        (steps : Steps)
        → IsRecorded steps
        → IsRecorded (steps_of (restart_daemon S staging install backup steps))
    unfolding restart_daemon check_daemon IsRecorded
    restart_daemon-IsRecorded steps h = conclude-IsRecorded _ _ h

    executed-IsRecorded :
        (failed : Bool) (steps : Steps)
        → IsRecorded steps
        → IsRecorded (steps_of (executed S staging install backup failed steps))
    unfolding executed steps_of IsRecorded
    executed-IsRecorded true steps h = h
    executed-IsRecorded false steps h =
        restart_daemon-IsRecorded
          (logged (codes "ERROR: exec of temp updater failed, attempting direct service restart")
            ∷ steps)
          h

    replace_files-IsRecorded :
        (result : ServiceResult) (steps : Steps)
        → IsRecorded steps
        → IsRecorded (steps_of (replace_files S staging install backup result steps))
    unfolding replace_files self_replace copy_files copy_to not_stopped steps_of IsRecorded
    replace_files-IsRecorded result_ok steps h = executed-IsRecorded _ _ h
    replace_files-IsRecorded result_error steps h = h
    replace_files-IsRecorded result_timeout steps h = h
    replace_files-IsRecorded not_installed steps h = h

    update_from-IsRecorded :
        (finish : Bool) (steps : Steps)
        → IsRecorded steps
        → IsRecorded (steps_of (update_from S staging install backup finish steps))
    unfolding update_from copy_files copy_to IsRecorded
    update_from-IsRecorded true steps h = restart_daemon-IsRecorded _ h
    update_from-IsRecorded false steps h = replace_files-IsRecorded _ _ (refl, h)

  pub run_updater-IsRecorded : (a : UpdaterArgs) → IsRecorded (steps_of (run_updater S a))
  unfolding run_updater steps_of IsRecorded
  run_updater-IsRecorded (updater_args f none i b) = tt
  run_updater-IsRecorded (updater_args f (some s) none b) = tt
  run_updater-IsRecorded (updater_args f (some s) (some i) none) = tt
  run_updater-IsRecorded (updater_args f (some s) (some i) (some b)) =
      update_from-IsRecorded s i b f _ tt
