-- ===== src/Service/Windows/Handles/Closed.antt =====
-- Every operation closes its handles (src/Service/service_windows.c).
use offs.Base.{ℕ, zero, suc, Bool, true, false, Option, none, some, ◌∷◌, Bytes, ◌≡◌, refl}
use offs.Service.Windows.{
  ServiceState, ScmCalls, Scm, opened_scm, controlled, queried, created_service, described, started,
  deleted, slept, is_stopped,
}
use offs.Service.Windows.Operations.{
  stop_poll_interval_ms, poll_stopped, await_stopped, service_windows_stop, start_done,
  service_windows_start, service_windows_is_running, install_done, installed, create_in,
  install_path, service_windows_install, delete_done, remove_service, service_windows_uninstall,
  wait_state, service_windows_wait_for_stop, service_windows_wait_for_start,
}
use offs.Service.Windows.Handles.{
  no_handle, scm_handle, both_handles, after_call, handles, IsClosed, close_both-IsClosed,
  close_scm-IsClosed, call-handles, get_last_error-IsClosed, opening-IsClosed,
  refused_late-IsClosed,
}

module _ (W : Scm) where
  poll_stopped-IsClosed :
      (rounds : ℕ) (over : Bool) (t : ScmCalls)
      → handles t ≡ some both_handles
      → IsClosed (poll_stopped W rounds over t)
  unfolding poll_stopped after_call
  poll_stopped-IsClosed zero true t h = close_both-IsClosed _ t h
  poll_stopped-IsClosed (suc rounds) true t h = close_both-IsClosed _ t h
  poll_stopped-IsClosed zero false t h =
      close_both-IsClosed _ _ (call-handles (slept stop_poll_interval_ms) _ refl h)
  poll_stopped-IsClosed (suc rounds) false t h =
      queried_next _ refl (λ over. poll_stopped-IsClosed rounds over)
    where
      asleep : ScmCalls
      asleep = slept stop_poll_interval_ms ∷ t

      asked : (state : Option ServiceState) → handles (queried state ∷ asleep) ≡ some both_handles
      asked state =
          call-handles (queried state) _ refl (call-handles (slept stop_poll_interval_ms) _ refl h)

      queried_next :
          (state : Option ServiceState)
          → W.query asleep ≡ state
          → ((over : Bool) (t' : ScmCalls)
              → handles t' ≡ some both_handles
              → IsClosed (poll_stopped W rounds over t'))
          → IsClosed (poll_stopped W (suc rounds) false t)
      queried_next none e ih =
          rw (e, poll_stopped) (close_both-IsClosed _ _ (asked (W.query asleep)))
      queried_next (some state) e ih =
          rw (e, poll_stopped) (ih (is_stopped state) _ (asked (W.query asleep)))

  wait_state-IsClosed :
      (awaited : ServiceState → Bool) (interval_ms rounds : ℕ) (t : ScmCalls)
      → handles t ≡ some both_handles
      → IsClosed (wait_state W awaited interval_ms rounds t)
  unfolding wait_state after_call
  wait_state-IsClosed awaited interval_ms zero t h = close_both-IsClosed _ t h
  wait_state-IsClosed awaited interval_ms (suc rounds) t h =
      queried_next _ refl (wait_state-IsClosed awaited interval_ms rounds)
    where
      asked : handles (queried (W.query t) ∷ t) ≡ some both_handles
      asked = call-handles (queried (W.query t)) _ refl h

      matched :
          (state : ServiceState)
          → W.query t ≡ some state
          → (b : Bool) → awaited state ≡ b
          → ((t' : ScmCalls)
              → handles t' ≡ some both_handles
              → IsClosed (wait_state W awaited interval_ms rounds t'))
          → IsClosed (wait_state W awaited interval_ms (suc rounds) t)
      matched state e true f ih = rw (e, f, wait_state) (close_both-IsClosed _ _ asked)
      matched state e false f ih =
          rw (e, f, wait_state) (ih _ (call-handles (slept interval_ms) _ refl asked))

      queried_next :
          (state : Option ServiceState)
          → W.query t ≡ state
          → ((t' : ScmCalls)
              → handles t' ≡ some both_handles
              → IsClosed (wait_state W awaited interval_ms rounds t'))
          → IsClosed (wait_state W awaited interval_ms (suc rounds) t)
      queried_next none e ih = rw (e, wait_state) (close_both-IsClosed _ _ asked)
      queried_next (some state) e ih = matched state e _ refl ih

  await_stopped-IsClosed :
      (state : Option ServiceState) (t : ScmCalls)
      → handles t ≡ some both_handles
      → IsClosed (await_stopped W state t)
  unfolding await_stopped
  await_stopped-IsClosed none t h = get_last_error-IsClosed W _ t (λ e t. close_both-IsClosed _ t) h
  await_stopped-IsClosed (some state) t h = poll_stopped-IsClosed _ _ t h

  start_done-IsClosed :
      (ok : Bool) (t : ScmCalls) → handles t ≡ some both_handles → IsClosed (start_done W ok t)
  unfolding start_done
  start_done-IsClosed true t h = close_both-IsClosed _ t h
  start_done-IsClosed false t h = get_last_error-IsClosed W _ t (λ e t. close_both-IsClosed _ t) h

  delete_done-IsClosed :
      (ok : Bool) (t : ScmCalls) → handles t ≡ some both_handles → IsClosed (delete_done W ok t)
  unfolding delete_done
  delete_done-IsClosed true t h = close_both-IsClosed _ t h
  delete_done-IsClosed false t h = get_last_error-IsClosed W _ t (λ e t. close_both-IsClosed _ t) h

  install_done-IsClosed :
      (ok : Bool) (t : ScmCalls) → handles t ≡ some both_handles → IsClosed (install_done W ok t)
  unfolding install_done
  install_done-IsClosed true t h = close_both-IsClosed _ t h
  install_done-IsClosed false t h = get_last_error-IsClosed W _ t (λ e t. close_both-IsClosed _ t) h

  installed-IsClosed :
      (ok : Bool) (path : Bytes) (t : ScmCalls)
      → handles t ≡ some scm_handle
      → IsClosed (installed W ok (created_service path ok ∷ t))
  unfolding installed after_call
  installed-IsClosed false path t h =
      get_last_error-IsClosed W _ _ (λ e t. close_scm-IsClosed _ t)
        (call-handles (created_service path false) _ refl h)
  installed-IsClosed true path t h = install_done-IsClosed _ _ (
      call-handles (started _) _ refl
        (call-handles described _ refl (call-handles (created_service path true) _ refl h)))

  create_in-IsClosed :
      (ok : Bool) (path : Bytes) (t : ScmCalls)
      → handles t ≡ some no_handle
      → IsClosed (create_in W ok path (opened_scm ok ∷ t))
  unfolding create_in after_call
  create_in-IsClosed false path t h = call-handles (opened_scm false) _ refl h
  create_in-IsClosed true path t h =
      installed-IsClosed _ path _ (call-handles (opened_scm true) _ refl h)

  install_path-IsClosed :
      (path : Option Bytes) (t : ScmCalls)
      → handles t ≡ some no_handle
      → IsClosed (install_path W path t)
  unfolding install_path
  install_path-IsClosed none t h = h
  install_path-IsClosed (some path) t h = create_in-IsClosed _ path t h

  stop-IsClosed : (t : ScmCalls) → handles t ≡ some no_handle → IsClosed (service_windows_stop W t)
  unfolding service_windows_stop after_call
  stop-IsClosed t =
      opening-IsClosed W _ _ _ t (refused_late-IsClosed W)
        (λ t h. await_stopped-IsClosed _ _ (call-handles (controlled _) _ refl h))

  remove_service-IsClosed :
      (t : ScmCalls) → handles t ≡ some no_handle → IsClosed (remove_service W t)
  unfolding remove_service after_call
  remove_service-IsClosed t =
      opening-IsClosed W _ _ _ t
        (λ t. get_last_error-IsClosed W _ t (λ e t. close_scm-IsClosed _ t))
        (λ t h. delete_done-IsClosed _ _ (call-handles (deleted _) _ refl h))

-- Every operation of the service on Windows, whatever the service manager answers, from any calls
-- that leave no handle open: it makes only calls on handles that are open, it closes each handle
-- that it opens once, the service's before the manager's, and it leaves none open.
pub service_windows-IsClosed :
    (W : Scm) (t : ScmCalls) (install_dir : Bytes) (timeout_ms : ℕ)
    → handles t ≡ some no_handle
    → IsClosed (service_windows_stop W t)
      × IsClosed (service_windows_start W t)
      × IsClosed (service_windows_is_running W t)
      × IsClosed (service_windows_install W install_dir t)
      × IsClosed (service_windows_uninstall W t)
      × IsClosed (service_windows_wait_for_stop W timeout_ms t)
      × IsClosed (service_windows_wait_for_start W timeout_ms t)
unfolding service_windows_start service_windows_is_running service_windows_install
    service_windows_uninstall service_windows_wait_for_stop service_windows_wait_for_start
    after_call
service_windows-IsClosed W t install_dir timeout_ms h = (
  stop-IsClosed W t h,
  opening-IsClosed W _ _ _ t (refused_late-IsClosed W)
      (λ t h. start_done-IsClosed W _ _ (call-handles (started _) _ refl h)) h,
  opening-IsClosed W _ _ _ t (λ t. close_scm-IsClosed _ t)
      (λ t h. close_both-IsClosed _ _ (call-handles (queried _) _ refl h)) h,
  install_path-IsClosed W _ t h,
  remove_service-IsClosed W _ (stop-IsClosed W t h),
  opening-IsClosed W _ _ _ t (λ t. close_scm-IsClosed _ t) (λ t. wait_state-IsClosed W _ _ _ t) h,
  opening-IsClosed W _ _ _ t (λ t. close_scm-IsClosed _ t) (λ t. wait_state-IsClosed W _ _ _ t) h,
)
