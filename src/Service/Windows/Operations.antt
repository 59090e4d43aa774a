-- ===== src/Service/Windows/Operations.antt =====
-- The operations of the service on Windows (src/Service/service_windows.c).
use offs.Base.{ℕ, zero, suc, ◌/◌, ◌-◌, Bool, true, false, Option, none, some, ◌∷◌, Bytes}
use offs.Service.{ServiceResult, result_ok, result_error, result_timeout, not_installed}
use offs.Service.Windows.{
  ServiceState, ScmCalls, Scm, opened_scm, controlled, queried, created_service, described, started,
  deleted, slept, is_stopped, is_started, control_result, start_result, create_result,
  remove_result, delete_result, close_both, close_scm, build_binary_path, get_last_error, opening,
  refused_late,
}

-- STOP_POLL_TIMEOUT_MS and STOP_POLL_INTERVAL_MS
unfoldable pub stop_poll_timeout_ms : ℕ
stop_poll_timeout_ms = 30000

unfoldable pub stop_poll_interval_ms : ℕ
stop_poll_interval_ms = 200

module _ (W : Scm) where
  -- The loop of service_windows_stop, by the rounds after which `elapsed` is still below the
  -- timeout, and whether the state is SERVICE_STOPPED.
  unfoldable pub poll_stopped : ℕ → Bool → ScmCalls → ServiceResult × ScmCalls
  poll_stopped rounds true t = close_both result_ok t
  poll_stopped zero false t = close_both result_timeout (slept stop_poll_interval_ms ∷ t)
  poll_stopped (suc rounds) false t =
      let asleep = slept stop_poll_interval_ms ∷ t in
      let t' = queried (W.query asleep) ∷ asleep in
      elim (W.query asleep) [
        | none ↦ close_both result_error t'
        | some state ↦ poll_stopped rounds (is_stopped state) t'
      ]

  unfoldable pub poll_rounds : ℕ
  poll_rounds = stop_poll_timeout_ms / stop_poll_interval_ms - 1

  -- By the result of ControlService.
  unfoldable pub await_stopped : Option ServiceState → ScmCalls → ServiceResult × ScmCalls
  await_stopped none t = get_last_error W (λ e. close_both (control_result e)) t
  await_stopped (some state) t = poll_stopped poll_rounds (is_stopped state) t

  unfoldable pub service_windows_stop : ScmCalls → ServiceResult × ScmCalls
  service_windows_stop =
      opening W result_error (refused_late W)
        (λ t. await_stopped (W.control t) (controlled (W.control t) ∷ t))

  -- By the result of StartService.
  unfoldable pub start_done : Bool → ScmCalls → ServiceResult × ScmCalls
  start_done true t = close_both result_ok t
  start_done false t = get_last_error W (λ e. close_both (start_result e)) t

  unfoldable pub service_windows_start : ScmCalls → ServiceResult × ScmCalls
  service_windows_start =
      opening W result_error (refused_late W)
        (λ t. start_done (W.start t) (started (W.start t) ∷ t))

  -- By the result of QueryServiceStatus.
  unfoldable pub running_of : Option ServiceState → Bool
  running_of none = false
  running_of (some state) = is_started state

  unfoldable pub service_windows_is_running : ScmCalls → Bool × ScmCalls
  service_windows_is_running =
      opening W false (close_scm false)
        (λ t. close_both (running_of (W.query t)) (queried (W.query t) ∷ t))

  -- By the result of the StartService that follows CreateService; its error changes nothing.
  unfoldable pub install_done : Bool → ScmCalls → ServiceResult × ScmCalls
  install_done true t = close_both result_ok t
  install_done false t = get_last_error W (λ e. close_both result_ok) t

  -- By the result of CreateService.
  unfoldable pub installed : Bool → ScmCalls → ServiceResult × ScmCalls
  installed false t = get_last_error W (λ e. close_scm (create_result e)) t
  installed true t = let t' = described ∷ t in install_done (W.start t') (started (W.start t') ∷ t')

  -- By the result of OpenSCManager.
  unfoldable pub create_in : Bool → Bytes → ScmCalls → ServiceResult × ScmCalls
  create_in false path t = (result_error, t)
  create_in true path t = installed (W.create t path) (created_service path (W.create t path) ∷ t)

  unfoldable pub install_path : Option Bytes → ScmCalls → ServiceResult × ScmCalls
  install_path none t = (result_error, t)
  install_path (some path) t = create_in (W.open_scm t) path (opened_scm (W.open_scm t) ∷ t)

  unfoldable pub service_windows_install : Bytes → ScmCalls → ServiceResult × ScmCalls
  service_windows_install install_dir = install_path (build_binary_path W install_dir)

  -- By the result of DeleteService.
  unfoldable pub delete_done : Bool → ScmCalls → ServiceResult × ScmCalls
  delete_done true t = close_both result_ok t
  delete_done false t = get_last_error W (λ e. close_both (delete_result e)) t

  -- Behind the stop.
  unfoldable pub remove_service : ScmCalls → ServiceResult × ScmCalls
  remove_service =
      opening W result_error (get_last_error W (λ e. close_scm (remove_result e)))
        (λ t. delete_done (W.delete t) (deleted (W.delete t) ∷ t))

  unfoldable pub service_windows_uninstall : ScmCalls → ServiceResult × ScmCalls
  service_windows_uninstall t = remove_service (service_windows_stop t).1

  -- The rounds of a wait, by the test on the state.
  unfoldable pub wait_state : (ServiceState → Bool) → ℕ → ℕ → ScmCalls → ServiceResult × ScmCalls
  wait_state awaited interval_ms zero t = close_both result_timeout t
  wait_state awaited interval_ms (suc rounds) t =
      let t' = queried (W.query t) ∷ t in
      elim (W.query t) [
        | none ↦ close_both result_error t'
        | some state ↦ elim (awaited state) [
          | true ↦ close_both result_ok t'
          | false ↦ wait_state awaited interval_ms rounds (slept interval_ms ∷ t')
        ]
      ]

  unfoldable pub service_windows_wait_for_stop : ℕ → ScmCalls → ServiceResult × ScmCalls
  service_windows_wait_for_stop timeout_ms =
      opening W result_error (close_scm not_installed)
        (wait_state is_stopped 300 (timeout_ms / 300))

  unfoldable pub service_windows_wait_for_start : ℕ → ScmCalls → ServiceResult × ScmCalls
  service_windows_wait_for_start timeout_ms =
      opening W result_error (close_scm not_installed)
        (wait_state is_started 500 (timeout_ms / 500))
