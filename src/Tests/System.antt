-- ===== src/Tests/System.antt =====
-- The daemon's threads and the service managers on concrete runs.
use offs.Base.{
  not, ◌==◌, ◌⊎◌, ◌+◌, ◌-◌, ◌*◌, ◌/◌, Bool, true, false, some, List, [], ◌∷◌, Bytes, codes, str_eq,
  ltb, length, All, ◌≤◌, ◌≡◌, refl, arith, if◌then◌else◌,
}
use offs.Service.{ServiceResult, result_ok, Calls}
use offs.Offsd.Flags.{
  waiting, ended, Flags, at_start, wakes, on_signal, on_control, request_restart, boots, registers,
  leaves_loop, ends, main_step, signalled, reload_asked, Reach, here, next, Runs, stays, MainStep,
  is_over,
}
use offs.Offsd.Flags.Stops.{ended-asked, asked-ends}
use offs.Offsd.Flags.Lost.{signal_is_lost, control-ends}
use offs.Offsd.Watchdog.{
  shutdown_watchdog_ms, last_words_ms, Watch, no_watch, arm, disarm, pass, arms, disarms, passes,
  Ticks, still, later,
}
use offs.Offsd.Watchdog.Fires.{watchdog_bounds, watchdog_cuts}
use offs.Service.Windows.{
  ServiceState, stopped, running, ScmError, other_error, ScmCalls, Scm, is_stopped, is_started,
}
use offs.Service.Windows.Operations.{
  stop_poll_timeout_ms, service_windows_stop, service_windows_start, service_windows_is_running,
  service_windows_install, service_windows_uninstall, service_windows_wait_for_stop,
  service_windows_wait_for_start,
}
use offs.Service.Windows.Handles.{handles, IsClosed}
use offs.Service.Windows.Handles.Closed.{service_windows-IsClosed}
use offs.Service.Windows.Results.{slept_ms, IsPolled, service_windows-IsPolled}
use offs.Service.Dispatcher.{
  Reported, Status, Dispatcher, BodyEvent, gets, stop_control, interrogate, sets_stop_handler,
  service_main,
}
use offs.Service.Dispatcher.Reports.{IsProper, stops_in, pending, states, service_main-told}
use offs.Updater.{updater_main}
use offs.Updater.Order.{steps_of}
use offs.Updater.OnLinux.{linux_service_ops}
use offs.Updater.OnLinux.Known.{CopiesKnown, updater_main-CopiesKnown}

abbrev in_loop : Flags
in_loop = record at_start { phase = waiting; running = true; handled = true }

in_loop_reached : (w : Bool) → Reach w at_start in_loop
in_loop_reached w = next (next here (main_step (boots refl))) (main_step (registers refl))

-- A signal in the loop.
stopping_reached : Reach false at_start (on_signal in_loop)
unfolding on_signal
stopping_reached = next (in_loop_reached false) (signalled refl)

abbrev finished : Flags
finished = record in_loop { phase = ended; running = false; asked = true }

finished_reached : Reach false at_start finished
unfolding on_signal wakes
finished_reached =
    next (next stopping_reached (main_step (leaves_loop refl refl))) (main_step (ends refl refl))

ended-asked_example : finished.asked ≡ true
ended-asked_example = ended-asked false finished finished_reached refl

asked-ends_example :
    (0 ≤ 8) × ((is_over in_loop.phase ≡ true) ⊎ ((u : Flags) × MainStep (on_signal in_loop) u))
unfolding on_signal
asked-ends_example =
    asked-ends false (on_signal in_loop) 0 (on_signal in_loop) stopping_reached refl refl stays

signal_is_lost_example :
    (t : Flags) × Runs (on_signal (request_restart in_loop)) 4 t
    × (t.phase ≡ waiting)
    × (t.asked ≡ true)
    × (wakes t ≡ false)
unfolding request_restart
signal_is_lost_example = signal_is_lost (request_restart in_loop) refl refl refl

-- A control of the service, and then a reload.
control-ends_example :
    (0 ≤ 8)
    × ((is_over in_loop.phase ≡ true)
        ⊎ ((v : Flags) × MainStep (request_restart (on_control in_loop)) v))
unfolding on_control request_restart
control-ends_example =
    control-ends true in_loop (request_restart (on_control in_loop)) 0
      (request_restart (on_control in_loop)) (next here (reload_asked (λ e. cc))) stays

-- A shutdown that begins, and one that is over after 1 ms.
abbrev torn_down : Watch
torn_down = disarm (pass (arm true no_watch))

armed-Ticks : Ticks no_watch (arm true no_watch)
armed-Ticks = later still (arms true refl refl)

torn_down-Ticks : Ticks no_watch torn_down
unfolding arm pass disarm shutdown_watchdog_ms
torn_down-Ticks = later (later armed-Ticks (passes refl (omega arith))) (disarms refl refl)

watchdog_bounds_example :
    ((arm true no_watch).active ≡ true
      → (arm true no_watch).killed ≡ false
      → (arm true no_watch).teardown_ms ≤ shutdown_watchdog_ms)
    × ((arm true no_watch).active ≡ true
        → (arm true no_watch).teardown_ms ≤ shutdown_watchdog_ms + last_words_ms)
    × ((arm true no_watch).completed ≡ 0
        → (arm true no_watch).gone ≡ true
        → (arm true no_watch).teardown_ms ≡ shutdown_watchdog_ms + last_words_ms)
unfolding arm
watchdog_bounds_example = watchdog_bounds (arm true no_watch) armed-Ticks refl

watchdog_cuts_example :
    (t : Watch) × Ticks torn_down t
    × (t.killed ≡ true)
    × (t.teardown_ms ≡ shutdown_watchdog_ms - torn_down.slept_ms)
unfolding arm pass disarm
watchdog_cuts_example = watchdog_cuts torn_down torn_down-Ticks refl refl refl

-- A service that is there and stops at the third poll.
abbrev manager : Scm
manager = record {
  open_scm = λ t. true;
  open_service = λ t. true;
  last_error = λ t. other_error;
  control = λ t. some running;
  query = λ t. some (if ltb (length t) 8 then running else stopped);
  create = λ t path. true;
  start = λ t. true;
  delete = λ t. true;
  to_wide = λ path. some path;
}

service_windows-IsClosed_example :
    IsClosed (service_windows_stop manager [])
    × IsClosed (service_windows_start manager [])
    × IsClosed (service_windows_is_running manager [])
    × IsClosed (service_windows_install manager (codes "C:\\offs") [])
    × IsClosed (service_windows_uninstall manager [])
    × IsClosed (service_windows_wait_for_stop manager 900 [])
    × IsClosed (service_windows_wait_for_start manager 900 [])
unfolding handles
service_windows-IsClosed_example = service_windows-IsClosed manager [] (codes "C:\\offs") 900 refl

service_windows-IsPolled_example :
    IsPolled is_stopped (stop_poll_timeout_ms + slept_ms []) (service_windows_stop manager [])
    × IsPolled is_stopped
        (900 / 300 * 300 + slept_ms [])
        (service_windows_wait_for_stop manager 900 [])
    × IsPolled is_started
        (900 / 500 * 500 + slept_ms [])
        (service_windows_wait_for_start manager 900 [])
service_windows-IsPolled_example = service_windows-IsPolled manager [] 900

stop_test : (service_windows_stop manager []).0 ≡ result_ok
unfolding service_windows_stop offs.Service.Windows.opening offs.Service.Windows.with_scm
    offs.Service.Windows.with_service offs.Service.Windows.Operations.await_stopped
    offs.Service.Windows.Operations.poll_stopped is_stopped
    offs.Service.Windows.Operations.poll_rounds stop_poll_timeout_ms
    offs.Service.Windows.Operations.stop_poll_interval_ms offs.Service.Windows.close_both
stop_test = refl

abbrev unregistered : Dispatcher
unregistered = record {
  stop_requested = false;
  has_stop_handler = false;
  has_status_handle = false;
  stop_calls = 0;
  reports = [];
}

abbrev body_events : List BodyEvent
body_events = sets_stop_handler ∷ gets interrogate ∷ gets stop_control ∷ []

service_main-told_example :
    (last : Status) × (rest : List Status) × ((service_main true body_events 1 unregistered).reports
      ≡ last ∷ rest)
    × (last.state ≡ Reported.stopped)
    × (last.specific_exit_code ≡ 1)
    × (last.is_specific ≡ not (1 == 0))
    × (states rest
        ≡ pending (stops_in body_events) (Reported.running ∷ Reported.start_pending ∷ []))
    × All IsProper (last ∷ rest)
    × ((service_main true body_events 1 unregistered).stop_requested ≡ ltb 0 (stops_in body_events))
service_main-told_example = service_main-told body_events 1 unregistered refl refl

-- The daemon is inactive from the second poll on; execl fails.
abbrev inactive_late : Calls → Bytes → Bool
inactive_late calls command = ltb (length calls) 4

updater_main-CopiesKnown_example : CopiesKnown inactive_late (
    steps_of (
      updater_main
        (linux_service_ops inactive_late (λ steps. false) (λ steps. true))
        (codes "/s" ∷ codes "/i" ∷ codes "/b" ∷ [])))
unfolding str_eq codes
updater_main-CopiesKnown_example =
    updater_main-CopiesKnown inactive_late (λ steps. false) (λ steps. true)
      (codes "/s" ∷ codes "/i" ∷ codes "/b" ∷ []) refl
