-- ===== src/Service/Dispatcher.antt =====
-- offsd under the service manager of Windows (src/Service/daemon_service_windows.c), and main of
-- src/offsd/main.c. The controls that the manager sends while the daemon runs are a list.
pub mod Reports
use offs.Base.{
  ℕ, zero, suc, Bool, true, false, not, ◌&&◌, List, [], ◌∷◌, Bytes, ◌==◌, if◌then◌else◌,
}

-- dwCurrentState, where the daemon reports it.
pub data Reported : Type 0 where
  start_pending running stop_pending stopped : Reported

-- SERVICE_STATUS: the state, whether SERVICE_ACCEPT_STOP and _SHUTDOWN are given, whether the exit
-- code is ERROR_SERVICE_SPECIFIC_ERROR instead of NO_ERROR, the specific code, and the wait hint.
pub record Status : Type 0 where
  pub state : Reported
  pub accepts_stop : Bool
  pub is_specific : Bool
  pub specific_exit_code : ℕ
  pub wait_hint : ℕ

pub data Control : Type 0 where
  stop_control shutdown_control interrogate other_control : Control

-- g_stop_requested, g_stop_handler, g_status_handle, the calls of the stop handler, and the reports
-- to the manager, latest first.
pub record Dispatcher : Type 0 where
  pub stop_requested : Bool
  pub has_stop_handler : Bool
  pub has_status_handle : Bool
  pub stop_calls : ℕ
  pub reports : List Status

unfoldable pub is_start_pending : Reported → Bool
is_start_pending start_pending = true
is_start_pending _ = false

unfoldable pub is_stopped : Reported → Bool
is_stopped stopped = true
is_stopped _ = false

-- The status of a report.
unfoldable pub status_of : Reported → ℕ → ℕ → Status
status_of state exit_code wait_hint =
    let specific = is_stopped state && not (exit_code == 0) in
    record {
      state = state;
      accepts_stop = not (is_start_pending state);
      is_specific = specific;
      specific_exit_code = if specific then exit_code else 0;
      wait_hint = wait_hint;
    }

-- `_service_report`
unfoldable pub service_report : Reported → ℕ → ℕ → Dispatcher → Dispatcher
service_report state exit_code wait_hint d =
    if d.has_status_handle
    then record d { reports = status_of state exit_code wait_hint ∷ d.reports }
    else d

unfoldable pub call_stop_handler : Dispatcher → Dispatcher
call_stop_handler d = if d.has_stop_handler then record d { stop_calls = suc d.stop_calls } else d

-- The case of both controls that stop the service.
unfoldable pub on_stop : Dispatcher → Dispatcher
on_stop d =
    call_stop_handler (service_report stop_pending 0 5000 (record d { stop_requested = true }))

-- `_service_ctrl_handler`
unfoldable pub service_ctrl_handler : Control → Dispatcher → Dispatcher
service_ctrl_handler stop_control d = on_stop d
service_ctrl_handler shutdown_control d = on_stop d
service_ctrl_handler interrogate d = d
service_ctrl_handler other_control d = d

-- daemon_service_set_stop_handler
unfoldable pub set_stop_handler : Dispatcher → Dispatcher
set_stop_handler d = record d { has_stop_handler = true }

-- What happens while the body runs.
pub data BodyEvent : Type 0 where
  gets : Control → BodyEvent
  sets_stop_handler : BodyEvent

unfoldable pub body_event : BodyEvent → Dispatcher → Dispatcher
body_event (gets control) d = service_ctrl_handler control d
body_event sets_stop_handler d = set_stop_handler d

unfoldable pub run_body : List BodyEvent → Dispatcher → Dispatcher
run_body [] d = d
run_body (e ∷ events) d = run_body events (body_event e d)

-- `_service_main`, by whether RegisterServiceCtrlHandlerW gives a handle; the body is set, meets
-- these events, and returns this code.
unfoldable pub service_main : Bool → List BodyEvent → ℕ → Dispatcher → Dispatcher
service_main false events rc d = record d { has_status_handle = false }
service_main true events rc d = service_report stopped rc 3000 (
    run_body events (
      service_report running 0 0
        (service_report start_pending 0 30000 (record d { has_status_handle = true }))))

-- StartServiceCtrlDispatcherW: it has run _service_main, or fails as on a console, or otherwise.
pub data Dispatch : Type 0 where
  dispatched from_console dispatch_failed : Dispatch

-- daemon_service_try_run: its result is 1, 0 or -1.
unfoldable pub try_run : Dispatch → Bool → List BodyEvent → ℕ → Dispatcher → Dispatcher
try_run dispatched registers events rc d =
    service_main registers events rc (record d { stop_requested = false })
try_run from_console registers events rc d = record d { stop_requested = false }
try_run dispatch_failed registers events rc d = record d { stop_requested = false }

-- main of offsd, by that result, with what _run_offsd returns on a console.
unfoldable pub exit_status : Dispatch → ℕ → ℕ
exit_status dispatched console_status = 0
exit_status from_console console_status = console_status
exit_status dispatch_failed console_status = 1
