-- ===== src/Service/Dispatcher/Reports.antt =====
-- What the service manager of Windows is told (src/Service/daemon_service_windows.c).
use mathlib.Core.List.{map}
use offs.Base.{
  ℕ, zero, suc, true, false, not, ◌||◌, List, [], ◌∷◌, All, ◌≡◌, refl, ap, arith, ◌∙◌, ltb, ◌==◌,
}
use offs.Service.Dispatcher.{
  Reported, start_pending, running, stop_pending, stopped, Status, stop_control, shutdown_control,
  interrogate, other_control, Dispatcher, is_start_pending, is_stopped, status_of, service_report,
  call_stop_handler, on_stop, service_ctrl_handler, set_stop_handler, BodyEvent, gets,
  sets_stop_handler, body_event, run_body, service_main,
}

-- A status as the manager wants it: controls are accepted but while the start is pending, and an
-- exit code is given only with SERVICE_STOPPED.
unfoldable pub IsProper : Status → Type 0
IsProper s =
    (s.accepts_stop ≡ not (is_start_pending s.state))
    × (is_stopped s.state ≡ false → (s.is_specific ≡ false) × (s.specific_exit_code ≡ 0))

status_of-IsProper :
    (state : Reported) (exit_code wait_hint : ℕ) → IsProper (status_of state exit_code wait_hint)
unfolding status_of IsProper
status_of-IsProper state exit_code wait_hint = (refl, λ h. ground arith)

-- How often the service is told to stop.
unfoldable pub stops_in : List BodyEvent → ℕ
stops_in [] = 0
stops_in (gets stop_control ∷ events) = suc (stops_in events)
stops_in (gets shutdown_control ∷ events) = suc (stops_in events)
stops_in (gets interrogate ∷ events) = stops_in events
stops_in (gets other_control ∷ events) = stops_in events
stops_in (sets_stop_handler ∷ events) = stops_in events

-- So many reports of a pending stop in front of the others.
unfoldable pub pending : ℕ → List Reported → List Reported
pending zero states = states
pending (suc n) states = pending n (stop_pending ∷ states)

abbrev pub states : List Status → List Reported
states = map (λ s. s.state)

-- From one dispatcher to a later one.
record Meets (n : ℕ) (d d' : Dispatcher) : Type 0 where
  told : states d'.reports ≡ pending n (states d.reports)
  proper : All IsProper d.reports → All IsProper d'.reports
  flagged : d'.stop_requested ≡ (d.stop_requested || ltb 0 n)
  kept : d'.has_status_handle ≡ d.has_status_handle

call_stop_handler-reports : (d : Dispatcher) → (call_stop_handler d).reports ≡ d.reports
unfolding call_stop_handler
call_stop_handler-reports d = ground arith

call_stop_handler-flags :
    (d : Dispatcher)
    → ((call_stop_handler d).stop_requested ≡ d.stop_requested)
      × ((call_stop_handler d).has_status_handle ≡ d.has_status_handle)
unfolding call_stop_handler
call_stop_handler-flags d = ground arith

service_report-told :
    (state : Reported) (exit_code wait_hint : ℕ) (d : Dispatcher)
    → d.has_status_handle ≡ true
    → service_report state exit_code wait_hint d
      ≡ record d { reports = status_of state exit_code wait_hint ∷ d.reports }
unfolding service_report
service_report-told state exit_code wait_hint d h = rw h refl

on_stop-reports :
    (d : Dispatcher)
    → d.has_status_handle ≡ true
    → (on_stop d).reports ≡ status_of stop_pending 0 5000 ∷ d.reports
unfolding on_stop
on_stop-reports d h =
    call_stop_handler-reports _
    ∙ ap (λ e. e.reports)
        (service_report-told stop_pending 0 5000 (record d { stop_requested = true }) h)

on_stop-flags :
    (d : Dispatcher)
    → d.has_status_handle ≡ true
    → ((on_stop d).stop_requested ≡ true) × ((on_stop d).has_status_handle ≡ true)
unfolding on_stop
on_stop-flags d h =
    let (e, f) =
      call_stop_handler-flags
        (service_report stop_pending 0 5000 (record d { stop_requested = true })) in
    let same = service_report-told stop_pending 0 5000 (record d { stop_requested = true }) h in
    (e ∙ ap (λ e. e.stop_requested) same, f ∙ ap (λ e. e.has_status_handle) same ∙ h)

on_stop-Meets : (d : Dispatcher) → d.has_status_handle ≡ true → Meets 1 d (on_stop d)
unfolding pending status_of
on_stop-Meets d h = record {
  told = ap states (on_stop-reports d h);
  proper = λ all. rw (on_stop-reports d h) (status_of-IsProper stop_pending 0 5000, all);
  flagged = ground (arith, on_stop-flags d h);
  kept = ground (arith, on_stop-flags d h);
}

Meets-same : (d : Dispatcher) → Meets 0 d d
unfolding pending
Meets-same d = record { told = refl; proper = λ all. all; flagged = ground arith; kept = refl }

-- One event in front of others.
Meets-then : (n : ℕ) {d e f : Dispatcher} → Meets 1 d e → Meets n e f → Meets (suc n) d f
unfolding pending
Meets-then n m r = record {
  told = r.told ∙ ap (pending n) m.told;
  proper = λ all. r.proper (m.proper all);
  flagged = ground (arith, m.flagged, r.flagged);
  kept = r.kept ∙ m.kept;
}

run_body-Meets :
    (events : List BodyEvent) (d : Dispatcher)
    → d.has_status_handle ≡ true
    → Meets (stops_in events) d (run_body events d)
unfolding run_body body_event service_ctrl_handler stops_in set_stop_handler
run_body-Meets [] d h = Meets-same d
run_body-Meets (gets stop_control ∷ events) d h =
    Meets-then _ (on_stop-Meets d h) (run_body-Meets events (on_stop d) (on_stop-flags d h).1)
run_body-Meets (gets shutdown_control ∷ events) d h =
    Meets-then _ (on_stop-Meets d h) (run_body-Meets events (on_stop d) (on_stop-flags d h).1)
run_body-Meets (gets interrogate ∷ events) d h = run_body-Meets events d h
run_body-Meets (gets other_control ∷ events) d h = run_body-Meets events d h
run_body-Meets (sets_stop_handler ∷ events) d h =
    let m = run_body-Meets events (set_stop_handler d) h in
    record { told = m.told; proper = m.proper; flagged = m.flagged; kept = m.kept }

stopped_with-code : (rc : ℕ) → (status_of stopped rc 3000).specific_exit_code ≡ rc
unfolding status_of is_stopped
stopped_with-code zero = refl
stopped_with-code (suc rc) = ground arith

-- Under the service manager, whatever controls it sends while the daemon runs, and whatever code
-- _run_offsd returns: the states reported are SERVICE_START_PENDING, SERVICE_RUNNING, one
-- SERVICE_STOP_PENDING for each control that stops the service (for another control, also for
-- SERVICE_CONTROL_INTERROGATE, there is none), and last SERVICE_STOPPED; the last report has the code
-- as the specific exit code and says that it has one just where the code is not 0; each report accepts controls but while the start is pending and has an exit code only with
-- SERVICE_STOPPED; and the stop flag is set exactly where there was such a control.
pub service_main-told :
    (events : List BodyEvent) (rc : ℕ) (d : Dispatcher)
    → d.reports ≡ []
    → d.stop_requested ≡ false
    → (last : Status) × (rest : List Status) × ((service_main true events rc d).reports
        ≡ last ∷ rest)
      × (last.state ≡ stopped)
      × (last.specific_exit_code ≡ rc)
      × (last.is_specific ≡ not (rc == 0))
      × (states rest ≡ pending (stops_in events) (running ∷ start_pending ∷ []))
      × All IsProper (last ∷ rest)
      × ((service_main true events rc d).stop_requested ≡ ltb 0 (stops_in events))
unfolding service_main service_report status_of is_stopped
service_main-told events rc d none_yet no_stop = (
  status_of stopped rc 3000,
  body.reports,
  ap (λ e. e.reports) same,
  refl,
  stopped_with-code rc,
  refl,
  rw (m.told, none_yet) refl,
  (
    status_of-IsProper stopped rc 3000,
    m.proper (
        rw none_yet
          (status_of-IsProper running 0 0, (status_of-IsProper start_pending 0 30000, tt))),
  ),
  ap (λ e. e.stop_requested) same ∙ m.flagged ∙ rw no_stop refl,
)
  where
    begun : Dispatcher
    begun =
        service_report running 0 0
          (service_report start_pending 0 30000 (record d { has_status_handle = true }))

    body : Dispatcher
    body = run_body events begun

    m : Meets (stops_in events) begun body
    m = run_body-Meets events begun refl

    same :
        service_report stopped rc 3000 body
        ≡ record body { reports = status_of stopped rc 3000 ∷ body.reports }
    same = service_report-told stopped rc 3000 body m.kept
