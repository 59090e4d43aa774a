-- ===== src/Tests/Update.antt =====
-- The services and the updater on concrete systems.
use offs.Base.{
  Bool, true, false, none, some, List, [], ◌∷◌, Bytes, codes, str_eq, ltb, length, ◌≡◌, refl,
  if◌then◌else◌,
}
use offs.Service.{ServiceResult, result_ok, result_timeout, Calls}
use offs.Service.Linux.{service_linux_wait_for_stop}
use offs.Service.Macos.{Files, not_there, resolve_binary_path, service_macos_uninstall}
use offs.Updater.{Services, updater_main}
use offs.Updater.Ends.{second, third, operands, is_accounted, updater_main-is_accounted}
use offs.Updater.Order.{in_order, steps_of, updater_main-in_order}

-- The daemon is inactive after two polls.
abbrev stops_late : Calls → Bytes → Bool
stops_late calls command = ltb (length calls) 4

abbrev updating : Services
updating = record {
  wait_for_stop = λ steps ms. result_ok;
  wait_for_start = λ steps ms. result_timeout;
  is_running = λ steps. ltb 20 (length steps);
  execl = λ steps. false;
  restores = λ steps. false;
}

abbrev dirs : List Bytes
dirs = codes "/s" ∷ codes "/i" ∷ codes "/b" ∷ []

updater_main-in_order_example : in_order (steps_of (updater_main updating dirs)) ≡ true
unfolding str_eq codes
updater_main-in_order_example = updater_main-in_order updating dirs refl

updater_main-is_accounted_example :
    is_accounted (second (operands dirs)) (third (operands dirs)) (updater_main updating dirs)
    ≡ true
updater_main-is_accounted_example = updater_main-is_accounted updating dirs

-- A launchd that has no daemon binary but the one of /opt, and no property list.
abbrev mac : Files
mac = record {
  realpath = λ path. if str_eq path (codes "/opt/offs/bin/offs-daemon") then some path else none;
  open_plist = true;
  write_plist = true;
  close_plist = true;
  chmod_plist = true;
  unlink_plist = not_there;
}

resolve_test :
    resolve_binary_path mac 4096 (codes "/usr") ≡ some (codes "/opt/offs/bin/offs-daemon")
unfolding resolve_binary_path offs.Service.Macos.first_of offs.Service.Macos.candidate_path codes
    str_eq
resolve_test = refl

uninstall_test : (service_macos_uninstall mac (λ calls command. false) []).0 ≡ result_ok
unfolding service_macos_uninstall offs.Service.Macos.remove_plist
uninstall_test = refl

stop_test : (service_linux_wait_for_stop stops_late 3000 []).0 ≡ result_ok
unfolding service_linux_wait_for_stop offs.Service.wait_rounds offs.Service.is_awaited
stop_test = refl

timeout_test : (service_linux_wait_for_stop stops_late 299 []).0 ≡ result_timeout
unfolding service_linux_wait_for_stop offs.Service.wait_rounds
timeout_test = refl
