-- ===== src/Updater/OnLinux.antt =====
-- The updater with the service on systemd: src/Updater/updater_main.c with
-- src/Service/service_linux.c.
pub mod Known
pub mod Recorded
use offs.Base.{ℕ, Bool, List, [], ◌∷◌, Bytes}
use offs.Service.{ServiceResult, Call, Calls}
use offs.Service.Linux.{
  service_linux_stop, service_linux_start, service_linux_is_running, service_linux_wait_for_stop,
  service_linux_wait_for_start,
}
use offs.Updater.{
  Step, Steps, made_pid_file, removed_pid_file, stopped, started, waited_stop, waited_start,
  asked_running, copied, made_executable, restored, logged, Services,
}

-- STARTUP_TIMEOUT_MS and SHUTDOWN_TIMEOUT_MS
unfoldable pub timeout_ms : ℕ
timeout_ms = 30000

module _ (system : Calls → Bytes → Bool) where
  -- The calls of the service's operations that the steps make.
  unfoldable pub calls_of : Steps → Calls
  calls_of [] = []
  calls_of (stopped ∷ steps) = (service_linux_stop system (calls_of steps)).1
  calls_of (started ∷ steps) = (service_linux_start system (calls_of steps)).1
  calls_of (waited_stop r ∷ steps) =
      (service_linux_wait_for_stop system timeout_ms (calls_of steps)).1
  calls_of (waited_start r ∷ steps) =
      (service_linux_wait_for_start system timeout_ms (calls_of steps)).1
  calls_of (asked_running up ∷ steps) = (service_linux_is_running system (calls_of steps)).1
  calls_of (made_pid_file ∷ steps) = calls_of steps
  calls_of (removed_pid_file ∷ steps) = calls_of steps
  calls_of (copied from to ∷ steps) = calls_of steps
  calls_of (made_executable path ∷ steps) = calls_of steps
  calls_of (restored command ∷ steps) = calls_of steps
  calls_of (logged message ∷ steps) = calls_of steps

  -- linux_service_ops, with the results of execl and of the restoring.
  unfoldable pub linux_service_ops : (Steps → Bool) → (Steps → Bool) → Services
  linux_service_ops execl restores = record {
    wait_for_stop = λ steps ms. (service_linux_wait_for_stop system ms (calls_of steps)).0;
    wait_for_start = λ steps ms. (service_linux_wait_for_start system ms (calls_of steps)).0;
    is_running = λ steps. (service_linux_is_running system (calls_of steps)).0;
    execl = execl;
    restores = restores;
  }
