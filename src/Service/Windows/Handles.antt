-- ===== src/Service/Windows/Handles.antt =====
-- The handles of the service manager and of the service (src/Service/service_windows.c).
pub mod Closed
use offs.Base.{
  ℕ, zero, suc, Bool, true, false, not, ◌&&◌, Option, none, some, [], ◌∷◌, Bytes, ◌≡◌, refl, arith,
  Bool-cases, inl, inr,
}
use offs.Service.{ServiceResult, result_ok, result_error, result_timeout, not_installed}
use offs.Service.Windows.{
  ServiceState, ScmError, ScmCall, ScmCalls, Scm, opened_scm, opened_service, closed_scm,
  closed_service, read_error, controlled, queried, created_service, described, started, deleted,
  slept, is_stopped, is_started, close_both, close_scm, build_binary_path, get_last_error,
  with_service, with_scm, opening, refused_late,
}
use offs.Service.Windows.Operations.{
  stop_poll_interval_ms, poll_stopped, poll_rounds, await_stopped, service_windows_stop, start_done,
  service_windows_start, running_of, service_windows_is_running, install_done, installed, create_in,
  install_path, service_windows_install, delete_done, remove_service, service_windows_uninstall,
  wait_state, service_windows_wait_for_stop, service_windows_wait_for_start,
}

-- Which handles are open.
pub data Handles : Type 0 where
  no_handle scm_handle both_handles : Handles

-- What a call needs, and which handles it leaves; none for a call that is not allowed: one on a
-- handle that is not open, a second opening, or the closing of the manager before the service.
unfoldable pub after_call : Handles → ScmCall → Option Handles
after_call no_handle (opened_scm ok) = some (elim ok [ true ↦ scm_handle | false ↦ no_handle ])
after_call scm_handle (opened_service ok) =
    some (elim ok [ true ↦ both_handles | false ↦ scm_handle ])
after_call scm_handle (created_service path ok) =
    some (elim ok [ true ↦ both_handles | false ↦ scm_handle ])
after_call scm_handle closed_scm = some no_handle
after_call both_handles closed_service = some scm_handle
after_call both_handles (controlled state) = some both_handles
after_call both_handles (queried state) = some both_handles
after_call both_handles described = some both_handles
after_call both_handles (started ok) = some both_handles
after_call both_handles (deleted ok) = some both_handles
after_call h (read_error e) = some h
after_call h (slept ms) = some h
after_call _ _ = none

abbrev pub then_call : Option Handles → ScmCall → Option Handles
then_call none call = none
then_call (some h) call = after_call h call

-- The handles that are open behind all calls, or none where one was not allowed.
unfoldable pub handles : ScmCalls → Option Handles
handles [] = some no_handle
handles (call ∷ t) = then_call (handles t) call

module _ {ℓ} {R : Type ℓ} where
  -- A result with no handle open, all calls having been allowed.
  abbrev pub IsClosed : R × ScmCalls → Type 0
  IsClosed r = handles r.1 ≡ some no_handle

  pub close_both-IsClosed :
      (r : R) (t : ScmCalls) → handles t ≡ some both_handles → IsClosed (close_both r t)
  unfolding close_both handles after_call
  close_both-IsClosed r t h = rw h refl

  pub close_scm-IsClosed :
      (r : R) (t : ScmCalls) → handles t ≡ some scm_handle → IsClosed (close_scm r t)
  unfolding close_scm handles after_call
  close_scm-IsClosed r t h = rw h refl

-- A call that is allowed.
pub call-handles :
    {before after : Handles} (call : ScmCall) (t : ScmCalls)
    → after_call before call ≡ some after
    → handles t ≡ some before
    → handles (call ∷ t) ≡ some after
unfolding handles
call-handles call t allowed h = rw h allowed

read_error_allowed : (h : Handles) (e : ScmError) → after_call h (read_error e) ≡ some h
unfolding after_call
read_error_allowed no_handle e = refl
read_error_allowed scm_handle e = refl
read_error_allowed both_handles e = refl

slept_allowed : (ms : ℕ) → after_call both_handles (slept ms) ≡ some both_handles
unfolding after_call
slept_allowed ms = refl

module _ (W : Scm) where
  pub get_last_error-IsClosed :
      {h : Handles} (next : ScmError → ScmCalls → ServiceResult × ScmCalls) (t : ScmCalls)
      → ((e : ScmError) (t : ScmCalls) → handles t ≡ some h → IsClosed (next e t))
      → handles t ≡ some h
      → IsClosed (get_last_error W next t)
  unfolding get_last_error after_call
  get_last_error-IsClosed {h} next t closes so_far =
      closes _ _ (call-handles (read_error (W.last_error t)) _ (read_error_allowed h _) so_far)

  pub with_service-IsClosed {ℓ} :
      {R : Type ℓ}
      → (ok : Bool) (refused body : ScmCalls → R × ScmCalls) (t : ScmCalls)
      → ((t : ScmCalls) → handles t ≡ some scm_handle → IsClosed (refused t))
      → ((t : ScmCalls) → handles t ≡ some both_handles → IsClosed (body t))
      → handles t ≡ some scm_handle
      → IsClosed (with_service W ok refused body t)
  unfolding with_service after_call
  with_service-IsClosed false refused body t c d h =
      c _ (call-handles (opened_service false) _ refl h)
  with_service-IsClosed true refused body t c d h =
      d _ (call-handles (opened_service true) _ refl h)

  pub with_scm-IsClosed {ℓ} :
      {R : Type ℓ}
      → (ok : Bool) (failed : R) (body : ScmCalls → R × ScmCalls) (t : ScmCalls)
      → ((t : ScmCalls) → handles t ≡ some scm_handle → IsClosed (body t))
      → handles t ≡ some no_handle
      → IsClosed (with_scm W ok failed body t)
  unfolding with_scm after_call
  with_scm-IsClosed false failed body t c h = call-handles (opened_scm false) _ refl h
  with_scm-IsClosed true failed body t c h = c _ (call-handles (opened_scm true) _ refl h)

  pub opening-IsClosed {ℓ} :
      {R : Type ℓ}
      → (failed : R) (refused body : ScmCalls → R × ScmCalls) (t : ScmCalls)
      → ((t : ScmCalls) → handles t ≡ some scm_handle → IsClosed (refused t))
      → ((t : ScmCalls) → handles t ≡ some both_handles → IsClosed (body t))
      → handles t ≡ some no_handle
      → IsClosed (opening W failed refused body t)
  unfolding opening
  opening-IsClosed failed refused body t c d =
      with_scm-IsClosed _ failed _ t (λ t'. with_service-IsClosed _ refused body t' c d)

  pub refused_late-IsClosed :
      (t : ScmCalls) → handles t ≡ some scm_handle → IsClosed (refused_late W t)
  unfolding refused_late after_call
  refused_late-IsClosed t h =
      get_last_error-IsClosed _ _ (λ e t h. h) (call-handles closed_scm _ refl h)
