-- ===== src/Service/Linux.antt =====
-- The service on systemd (src/Service/service_linux.c).
use offs.Base.{ℕ, ◌/◌, Bool, true, false, ◌∷◌, Bytes, codes}
use offs.Service.{ServiceResult, Calls, ran, run_command, wait_rounds}

unfoldable pub status_command : Bytes
status_command = codes "systemctl is-active --quiet offs-daemon"

module _ (system : Calls → Bytes → Bool) where
  unfoldable pub service_linux_stop : Calls → ServiceResult × Calls
  service_linux_stop = run_command system (codes "systemctl stop offs-daemon 2>/dev/null")

  unfoldable pub service_linux_start : Calls → ServiceResult × Calls
  service_linux_start =
      run_command system
        (codes "systemctl daemon-reload 2>/dev/null && systemctl start offs-daemon 2>/dev/null")

  unfoldable pub service_linux_is_running : Calls → Bool × Calls
  service_linux_is_running calls = (system calls status_command, ran status_command ∷ calls)

  unfoldable pub service_linux_install : Bytes → Calls → ServiceResult × Calls
  service_linux_install install_dir =
      run_command system (codes "systemctl daemon-reload && systemctl enable offs-daemon")

  unfoldable pub service_linux_uninstall : Calls → ServiceResult × Calls
  service_linux_uninstall calls = run_command system (codes "systemctl daemon-reload") (
      ran (codes "systemctl disable offs-daemon 2>/dev/null")
      ∷ ran (codes "systemctl stop offs-daemon 2>/dev/null")
      ∷ calls)

  unfoldable pub service_linux_wait_for_stop : ℕ → Calls → ServiceResult × Calls
  service_linux_wait_for_stop timeout_ms =
      wait_rounds system false status_command 300 (timeout_ms / 300)

  unfoldable pub service_linux_wait_for_start : ℕ → Calls → ServiceResult × Calls
  service_linux_wait_for_start timeout_ms =
      wait_rounds system true status_command 500 (timeout_ms / 500)
