-- ===== src/Service/Macos.antt =====
-- The service on launchd (src/Service/service_macos.c).
use offs.Base.{
  ℕ, ◌/◌, Bool, true, false, not, ◌&&◌, Option, none, some, [], ◌∷◌, ◌++◌, Bytes, codes, length,
  ltb, if◌then◌else◌,
}
use offs.Service.{
  ServiceResult, result_ok, result_error, Calls, ran, wrote_plist, removed_plist, run_command,
  wait_rounds,
}

unfoldable pub list_command : Bytes
list_command = codes "launchctl list com.offs.daemon > /dev/null 2>&1"

unfoldable pub bootout_command : Bytes
bootout_command =
    codes "launchctl bootout system /Library/LaunchDaemons/com.offs.daemon.plist 2>/dev/null"

unfoldable pub bootstrap_command : Bytes
bootstrap_command =
    codes "launchctl bootstrap system /Library/LaunchDaemons/com.offs.daemon.plist 2>/dev/null"

-- unlink of the property list: it fails where it is not there, or for another reason.
pub data Unlinked : Type 0 where
  unlinked not_there not_unlinked : Unlinked

-- The system: `realpath`, and whether the property list is opened, written, closed and given its
-- mode.
pub record Files : Type 0 where
  pub realpath : Bytes → Option Bytes
  pub open_plist : Bool
  pub write_plist : Bool
  pub close_plist : Bool
  pub chmod_plist : Bool
  pub unlink_plist : Unlinked

-- The first of two results that is there.
unfoldable pub first_of : Option Bytes → Option Bytes → Option Bytes
first_of none second = second
first_of (some path) second = some path

module _ (F : Files) where
  -- The candidate in the installation's directory, where PATH_MAX has room for it.
  unfoldable pub candidate_path : ℕ → Bytes → Option Bytes
  candidate_path path_max [] = none
  candidate_path path_max (c ∷ cs) =
      let candidate = (c ∷ cs) ++ codes "/bin/offs-daemon" in
      if ltb (length candidate) path_max then F.realpath candidate else none

  unfoldable pub resolve_binary_path : ℕ → Bytes → Option Bytes
  resolve_binary_path path_max install_dir = first_of (candidate_path path_max install_dir) (
      first_of (F.realpath (codes "/usr/local/bin/offs-daemon")) (
        first_of (F.realpath (codes "/opt/offs/bin/offs-daemon"))
          (F.realpath (codes "/usr/bin/offs-daemon"))))

module _ (F : Files) (system : Calls → Bytes → Bool) where
  unfoldable pub service_macos_stop : Calls → ServiceResult × Calls
  service_macos_stop = run_command system bootout_command

  unfoldable pub service_macos_start : Calls → ServiceResult × Calls
  service_macos_start = run_command system bootstrap_command

  unfoldable pub service_macos_is_running : Calls → Bool × Calls
  service_macos_is_running calls = (system calls list_command, ran list_command ∷ calls)

  -- From the result of service_macos_resolve_binary_path on.
  unfoldable pub install_binary : Option Bytes → Calls → ServiceResult × Calls
  install_binary none calls = (result_error, calls)
  install_binary (some path) calls =
      if not F.open_plist
      then (result_error, calls)
      else if F.write_plist && F.close_plist && F.chmod_plist
      then run_command system bootstrap_command (wrote_plist path ∷ calls)
      else (result_error, wrote_plist path ∷ calls)

  unfoldable pub service_macos_install : ℕ → Bytes → Calls → ServiceResult × Calls
  service_macos_install path_max install_dir =
      install_binary (resolve_binary_path F path_max install_dir)

  -- By the result of unlink.
  unfoldable pub remove_plist : Unlinked → Calls → ServiceResult × Calls
  remove_plist unlinked calls = (result_ok, removed_plist ∷ calls)
  remove_plist not_there calls = (result_ok, calls)
  remove_plist not_unlinked calls = (result_error, calls)

  unfoldable pub service_macos_uninstall : Calls → ServiceResult × Calls
  service_macos_uninstall calls = remove_plist F.unlink_plist (ran bootout_command ∷ calls)

  unfoldable pub service_macos_wait_for_stop : ℕ → Calls → ServiceResult × Calls
  service_macos_wait_for_stop timeout_ms =
      wait_rounds system false list_command 300 (timeout_ms / 300)

  unfoldable pub service_macos_wait_for_start : ℕ → Calls → ServiceResult × Calls
  service_macos_wait_for_start timeout_ms =
      wait_rounds system true list_command 500 (timeout_ms / 500)
