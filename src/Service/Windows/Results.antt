-- ===== src/Service/Windows/Results.antt =====
-- What the results of the stop and the waits tell (src/Service/service_windows.c).
use offs.Base.{
  ℕ, zero, suc, ◌+◌, ◌*◌, ◌/◌, ◌≤◌, Bool, true, false, Option, none, some, [], ◌∷◌, ◌≡◌, ◌≢◌, ◌∙◌,
  refl, arith,
}
use offs.Service.{ServiceResult, result_ok, result_error, result_timeout}
use offs.Service.Windows.{
  ServiceState, ScmError, ScmCalls, Scm, opened_scm, opened_service, closed_scm, closed_service,
  read_error, controlled, queried, created_service, described, started, deleted, slept,
  does_not_exist, not_active, already_running, exists, marked_for_delete, other_error, is_stopped,
  is_started, missing_result, control_result, close_both, close_scm, get_last_error, with_service,
  with_scm, opening, refused_late,
}
use offs.Service.Windows.Operations.{
  stop_poll_timeout_ms, stop_poll_interval_ms, poll_stopped, poll_rounds, await_stopped,
  service_windows_stop, wait_state, service_windows_wait_for_stop, service_windows_wait_for_start,
}

-- The time that the calls sleep for.
unfoldable pub slept_ms : ScmCalls → ℕ
slept_ms [] = 0
slept_ms (slept ms ∷ t) = ms + slept_ms t
slept_ms (opened_scm ok ∷ t) = slept_ms t
slept_ms (opened_service ok ∷ t) = slept_ms t
slept_ms (closed_scm ∷ t) = slept_ms t
slept_ms (closed_service ∷ t) = slept_ms t
slept_ms (read_error e ∷ t) = slept_ms t
slept_ms (controlled state ∷ t) = slept_ms t
slept_ms (queried state ∷ t) = slept_ms t
slept_ms (created_service path ok ∷ t) = slept_ms t
slept_ms (described ∷ t) = slept_ms t
slept_ms (started ok ∷ t) = slept_ms t
slept_ms (deleted ok ∷ t) = slept_ms t

unfoldable pub is_not_active : ScmError → Bool
is_not_active not_active = true
is_not_active _ = false

-- Whether the last answer, in front of the closing of the handles, is a state of this kind, or the
-- error that the service is not active.
unfoldable pub answers : (ServiceState → Bool) → ScmCalls → Bool
answers goal [] = false
answers goal (closed_scm ∷ t) = answers goal t
answers goal (closed_service ∷ t) = answers goal t
answers goal (controlled (some state) ∷ t) = goal state
answers goal (queried (some state) ∷ t) = goal state
answers goal (read_error e ∷ t) = is_not_active e
answers goal (_ ∷ t) = false

-- A success has seen the state, and the calls have slept for the time at most.
pub record IsPolled (goal : ServiceState → Bool) (limit : ℕ) (r : ServiceResult × ScmCalls)
    : Type 0 where
  pub sees : r.0 ≡ result_ok → answers goal r.1 ≡ true
  pub within : slept_ms r.1 ≤ limit

missing_is_no_success : (e : ScmError) → missing_result e ≢ result_ok
unfolding missing_result
missing_is_no_success does_not_exist h = cc
missing_is_no_success not_active h = cc
missing_is_no_success already_running h = cc
missing_is_no_success exists h = cc
missing_is_no_success marked_for_delete h = cc
missing_is_no_success other_error h = cc

control_result_ok : (e : ScmError) → control_result e ≡ result_ok → is_not_active e ≡ true
unfolding control_result is_not_active
control_result_ok does_not_exist h = cc
control_result_ok not_active h = refl
control_result_ok already_running h = cc
control_result_ok exists h = cc
control_result_ok marked_for_delete h = cc
control_result_ok other_error h = cc

module _ (goal : ServiceState → Bool) (limit : ℕ) where
  ok-IsPolled :
      (t : ScmCalls)
      → answers goal t ≡ true
      → slept_ms t ≤ limit
      → IsPolled goal limit (close_both result_ok t)
  unfolding close_both answers slept_ms
  ok-IsPolled t h k = record { sees = λ e. h; within = k }

  error-IsPolled :
      (t : ScmCalls) → slept_ms t ≤ limit → IsPolled goal limit (close_both result_error t)
  unfolding close_both slept_ms
  error-IsPolled t k = record { sees = λ e. cc; within = k }

  timeout-IsPolled :
      (t : ScmCalls) → slept_ms t ≤ limit → IsPolled goal limit (close_both result_timeout t)
  unfolding close_both slept_ms
  timeout-IsPolled t k = record { sees = λ e. cc; within = k }

  module _ (W : Scm) where
    refused_late-IsPolled :
        (t : ScmCalls) → slept_ms t ≤ limit → IsPolled goal limit (refused_late W t)
    unfolding refused_late get_last_error slept_ms
    refused_late-IsPolled t k = record {
      sees = λ e. absurd (missing_is_no_success _ e);
      within = k;
    }

    wait_state-IsPolled :
        (interval_ms rounds : ℕ) (t : ScmCalls)
        → rounds * interval_ms + slept_ms t ≤ limit
        → IsPolled goal limit (wait_state W goal interval_ms rounds t)
    unfolding wait_state slept_ms answers
    wait_state-IsPolled interval_ms zero t k = timeout-IsPolled t (omega arith)
    wait_state-IsPolled interval_ms (suc rounds) t k =
        queried_next _ refl (wait_state-IsPolled interval_ms rounds)
      where
        matched :
            (state : ServiceState)
            → W.query t ≡ some state
            → (b : Bool) → goal state ≡ b
            → ((t' : ScmCalls)
                → rounds * interval_ms + slept_ms t' ≤ limit
                → IsPolled goal limit (wait_state W goal interval_ms rounds t'))
            → IsPolled goal limit (wait_state W goal interval_ms (suc rounds) t)
        matched state e true f ih =
            rw (e, f, wait_state) (ok-IsPolled (queried (W.query t) ∷ t) (rw e f) (omega arith))
        matched state e false f ih = rw (e, f, wait_state) (ih _ (omega arith))

        queried_next :
            (state : Option ServiceState)
            → W.query t ≡ state
            → ((t' : ScmCalls)
                → rounds * interval_ms + slept_ms t' ≤ limit
                → IsPolled goal limit (wait_state W goal interval_ms rounds t'))
            → IsPolled goal limit (wait_state W goal interval_ms (suc rounds) t)
        queried_next none e ih =
            rw (e, wait_state) (error-IsPolled (queried (W.query t) ∷ t) (omega arith))
        queried_next (some state) e ih = matched state e _ refl ih

    with_service-IsPolled :
        (ok : Bool) (refused body : ScmCalls → ServiceResult × ScmCalls) (t : ScmCalls)
        → ((t' : ScmCalls) → slept_ms t' ≡ slept_ms t → IsPolled goal limit (refused t'))
        → ((t' : ScmCalls) → slept_ms t' ≡ slept_ms t → IsPolled goal limit (body t'))
        → IsPolled goal limit (with_service W ok refused body t)
    unfolding with_service slept_ms
    with_service-IsPolled false refused body t c d = c _ refl
    with_service-IsPolled true refused body t c d = d _ refl

    with_scm-IsPolled :
        (ok : Bool) (body : ScmCalls → ServiceResult × ScmCalls) (t : ScmCalls)
        → slept_ms t ≤ limit
        → ((t' : ScmCalls) → slept_ms t' ≡ slept_ms t → IsPolled goal limit (body t'))
        → IsPolled goal limit (with_scm W ok result_error body t)
    unfolding with_scm slept_ms
    with_scm-IsPolled false body t k c = record { sees = λ e. cc; within = k }
    with_scm-IsPolled true body t k c = c _ refl

    opening-IsPolled :
        (refused body : ScmCalls → ServiceResult × ScmCalls) (t : ScmCalls)
        → slept_ms t ≤ limit
        → ((t' : ScmCalls) → slept_ms t' ≡ slept_ms t → IsPolled goal limit (refused t'))
        → ((t' : ScmCalls) → slept_ms t' ≡ slept_ms t → IsPolled goal limit (body t'))
        → IsPolled goal limit (opening W result_error refused body t)
    unfolding opening
    opening-IsPolled refused body t k c d =
        with_scm-IsPolled _ _ t k (λ t' e.
          with_service-IsPolled _ refused body t' (λ u f. c u (f ∙ e)) (λ u f. d u (f ∙ e)))

module _ (limit : ℕ) (W : Scm) where
  poll_stopped-IsPolled :
      (rounds : ℕ) (over : Bool) (t : ScmCalls)
      → (over ≡ true → answers is_stopped t ≡ true)
      → suc rounds * stop_poll_interval_ms + slept_ms t ≤ limit
      → IsPolled is_stopped limit (poll_stopped W rounds over t)
  unfolding poll_stopped slept_ms answers
  poll_stopped-IsPolled zero true t h k = ok-IsPolled _ _ t (h refl) (omega arith)
  poll_stopped-IsPolled (suc rounds) true t h k = ok-IsPolled _ _ t (h refl) (omega arith)
  poll_stopped-IsPolled zero false t h k = timeout-IsPolled _ _ _ (omega arith)
  poll_stopped-IsPolled (suc rounds) false t h k =
      queried_next _ refl (λ over. poll_stopped-IsPolled rounds over)
    where
      asleep : ScmCalls
      asleep = slept stop_poll_interval_ms ∷ t

      queried_next :
          (state : Option ServiceState)
          → W.query asleep ≡ state
          → ((over : Bool) (t' : ScmCalls)
              → (over ≡ true → answers is_stopped t' ≡ true)
              → suc rounds * stop_poll_interval_ms + slept_ms t' ≤ limit
              → IsPolled is_stopped limit (poll_stopped W rounds over t'))
          → IsPolled is_stopped limit (poll_stopped W (suc rounds) false t)
      queried_next none e ih =
          rw (e, poll_stopped)
            (error-IsPolled _ _ (queried (W.query asleep) ∷ asleep) (omega arith))
      queried_next (some state) e ih =
          rw (e, poll_stopped)
            (ih (is_stopped state) (queried (W.query asleep) ∷ asleep) (λ b. rw e b) (omega arith))

  await_stopped-IsPolled :
      (state : Option ServiceState) (t : ScmCalls)
      → stop_poll_timeout_ms + slept_ms t ≤ limit
      → IsPolled is_stopped limit (await_stopped W state (controlled state ∷ t))
  unfolding await_stopped slept_ms answers poll_rounds stop_poll_timeout_ms stop_poll_interval_ms
      get_last_error close_both
  await_stopped-IsPolled none t k = record {
    sees = control_result_ok (W.last_error (controlled none ∷ t));
    within = omega arith;
  }
  await_stopped-IsPolled (some state) t k =
      poll_stopped-IsPolled _ _ (controlled (some state) ∷ t) (λ b. b) (omega arith)

-- The stop of the service on Windows and the waits for its stop and start, whatever the service
-- manager answers: a result of `service_result_ok` means that the manager's last answer was the
-- state SERVICE_STOPPED, or SERVICE_RUNNING for the start, or, in the stop, that the service is not
-- active; and they sleep for at most 30 s, or the whole rounds in the wait's time.
pub service_windows-IsPolled :
    (W : Scm) (t : ScmCalls) (timeout_ms : ℕ)
    → IsPolled is_stopped (stop_poll_timeout_ms + slept_ms t) (service_windows_stop W t)
      × IsPolled is_stopped
          (timeout_ms / 300 * 300 + slept_ms t)
          (service_windows_wait_for_stop W timeout_ms t)
      × IsPolled is_started
          (timeout_ms / 500 * 500 + slept_ms t)
          (service_windows_wait_for_start W timeout_ms t)
unfolding service_windows_stop service_windows_wait_for_stop service_windows_wait_for_start
    close_scm slept_ms
service_windows-IsPolled W t timeout_ms = (
  opening-IsPolled is_stopped _ W _ _ t (omega arith)
      (λ t' e. refused_late-IsPolled is_stopped _ W t' (omega arith))
      (λ t' e. await_stopped-IsPolled _ W _ t' (omega arith)),
  opening-IsPolled is_stopped _ W _ _ t (omega arith)
      (λ t' e. record { sees = λ b. cc; within = omega arith })
      (λ t' e. wait_state-IsPolled is_stopped _ W 300 _ t' (omega arith)),
  opening-IsPolled is_started _ W _ _ t (omega arith)
      (λ t' e. record { sees = λ b. cc; within = omega arith })
      (λ t' e. wait_state-IsPolled is_started _ W 500 _ t' (omega arith)),
)
