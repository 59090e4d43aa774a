-- ===== src/Service/Windows.antt =====
-- The service on Windows (src/Service/service_windows.c). The service manager's functions are
-- parameters that answer by the calls before; so is GetLastError, wherever the source reads it.
pub mod Operations
pub mod Handles
pub mod Results
use offs.Base.{
  ℕ, zero, suc, ◌/◌, ◌-◌, Bool, true, false, ◌||◌, Option, none, some, List, [], ◌∷◌, ◌++◌, Bytes,
  codes, ◌==◌, if◌then◌else◌,
}
use offs.Service.{ServiceResult, result_ok, result_error, result_timeout, not_installed}

-- dwCurrentState
pub data ServiceState : Type 0 where
  stopped start_pending stop_pending running paused : ServiceState

-- The errors that the source tells apart.
pub data ScmError : Type 0 where
  does_not_exist not_active already_running exists marked_for_delete other_error : ScmError

-- The calls with their results, latest first.
pub data ScmCall : Type 0 where
  opened_scm opened_service : Bool → ScmCall
  closed_scm closed_service : ScmCall
  read_error : ScmError → ScmCall
  controlled queried : Option ServiceState → ScmCall
  created_service : Bytes → Bool → ScmCall
  described : ScmCall
  started deleted : Bool → ScmCall
  slept : ℕ → ScmCall

abbrev pub ScmCalls : Type 0
ScmCalls = List ScmCall

pub record Scm : Type 0 where
  pub open_scm : ScmCalls → Bool
  pub open_service : ScmCalls → Bool
  pub last_error : ScmCalls → ScmError
  -- ControlService with SERVICE_CONTROL_STOP, and QueryServiceStatus: the state, or a failure
  pub control : ScmCalls → Option ServiceState
  pub query : ScmCalls → Option ServiceState
  pub create : ScmCalls → Bytes → Bool
  pub start : ScmCalls → Bool
  pub delete : ScmCalls → Bool
  -- MultiByteToWideChar
  pub to_wide : Bytes → Option Bytes

unfoldable pub is_stopped : ServiceState → Bool
is_stopped stopped = true
is_stopped _ = false

unfoldable pub is_started : ServiceState → Bool
is_started running = true
is_started _ = false

-- The results by the error.
unfoldable pub missing_result : ScmError → ServiceResult
missing_result does_not_exist = not_installed
missing_result _ = result_error

unfoldable pub control_result : ScmError → ServiceResult
control_result not_active = result_ok
control_result _ = result_error

unfoldable pub start_result : ScmError → ServiceResult
start_result already_running = result_ok
start_result _ = result_error

unfoldable pub create_result : ScmError → ServiceResult
create_result exists = result_ok
create_result marked_for_delete = result_ok
create_result _ = result_error

unfoldable pub remove_result : ScmError → ServiceResult
remove_result does_not_exist = result_ok
remove_result _ = result_error

unfoldable pub delete_result : ScmError → ServiceResult
delete_result marked_for_delete = result_ok
delete_result _ = result_error

-- A result, when both handles are closed.
unfoldable pub close_both {ℓ} : {R : Type ℓ} → R → ScmCalls → R × ScmCalls
close_both r t = (r, closed_scm ∷ closed_service ∷ t)

unfoldable pub close_scm {ℓ} : {R : Type ℓ} → R → ScmCalls → R × ScmCalls
close_scm r t = (r, closed_scm ∷ t)

-- install_dir with the binary's name, or the default path; it is `none` where the conversion fails.
unfoldable pub ends_in_backslash : Bytes → Bool
ends_in_backslash [] = false
ends_in_backslash (c ∷ []) = c == 92
ends_in_backslash (c ∷ d ∷ cs) = ends_in_backslash (d ∷ cs)

unfoldable pub binary_in : Option Bytes → Option Bytes
binary_in none = none
binary_in (some wide) = some (
    wide ++ (if ends_in_backslash wide then codes "offs-daemon.exe" else codes "\\offs-daemon.exe"))

module _ (W : Scm) where
  unfoldable pub build_binary_path : Bytes → Option Bytes
  build_binary_path [] = some (codes "C:\\Program Files\\offs\\offs-daemon.exe")
  build_binary_path (c ∷ cs) = binary_in (W.to_wide (c ∷ cs))

  -- GetLastError, as a call.
  unfoldable pub get_last_error {ℓ} :
      {R : Type ℓ} → (ScmError → ScmCalls → R × ScmCalls) → ScmCalls → R × ScmCalls
  get_last_error next t = let e = W.last_error t in next e (read_error e ∷ t)

  -- By the result of OpenService, and before by that of OpenSCManager.
  unfoldable pub with_service {ℓ} :
      {R : Type ℓ}
      → Bool
      → (ScmCalls → R × ScmCalls)
      → (ScmCalls → R × ScmCalls)
      → ScmCalls
      → R × ScmCalls
  with_service false refused body t = refused (opened_service false ∷ t)
  with_service true refused body t = body (opened_service true ∷ t)

  unfoldable pub with_scm {ℓ} :
      {R : Type ℓ} → Bool → R → (ScmCalls → R × ScmCalls) → ScmCalls → R × ScmCalls
  with_scm false failed body t = (failed, opened_scm false ∷ t)
  with_scm true failed body t = body (opened_scm true ∷ t)

  -- Both handles opened.
  unfoldable pub opening {ℓ} :
      {R : Type ℓ}
      → R
      → (ScmCalls → R × ScmCalls)
      → (ScmCalls → R × ScmCalls)
      → ScmCalls
      → R × ScmCalls
  opening failed refused body t =
      with_scm (W.open_scm t) failed (λ t'. with_service (W.open_service t') refused body t') t

  -- A service that cannot be opened, in stop and start: the manager's handle is closed first.
  unfoldable pub refused_late : ScmCalls → ServiceResult × ScmCalls
  refused_late t = get_last_error (λ e t'. (missing_result e, t')) (closed_scm ∷ t)
