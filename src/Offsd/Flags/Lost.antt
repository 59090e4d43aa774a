-- ===== src/Offsd/Flags/Lost.antt =====
-- A stop that meets a reload (src/offsd/main.c).
use offs.Base.{ℕ, ◌≤◌, ◌⊎◌, Bool, true, false, ◌≡◌, refl, arith}
use offs.Offsd.Flags.Progress.{Runs-le, next_step}
use offs.Offsd.Flags.{
  is_over, waiting, Flags, wakes, on_signal, on_control, request_restart, MainStep, boots, fails,
  fails_late, registers, leaves_loop, ends, starts_again, Step, main_step, signalled, controlled,
  reload_asked, Reach, here, next, Runs, stays, goes_on,
}

-- A signal that arrives in the waiting loop while a requested reload has not been taken up, and the
-- service manager asked for no stop, is lost: the main thread, where the next _startup succeeds,
-- comes back to the waiting loop with no flag that wakes it.
pub signal_is_lost :
    (s : Flags)
    → s.phase ≡ waiting
    → s.restart_requested ≡ true
    → s.stop_requested ≡ false
    → (t : Flags) × Runs (on_signal s) 4 t
      × (t.phase ≡ waiting)
      × (t.asked ≡ true)
      × (wakes t ≡ false)
unfolding on_signal wakes
signal_is_lost s e r n = (
  _,
  goes_on
      (goes_on (goes_on (goes_on stays (leaves_loop e (ground arith))) (starts_again refl r))
        (boots refl))
      (registers refl),
  refl,
  refl,
  ground arith,
)

MainStep-requested :
    {s t : Flags} → MainStep s t → s.stop_requested ≡ true → t.stop_requested ≡ true
MainStep-requested (boots e) h = h
MainStep-requested (fails e) h = h
MainStep-requested (fails_late e) h = h
MainStep-requested (registers e) h = h
MainStep-requested (leaves_loop e w) h = h
MainStep-requested (ends e r) h = h
MainStep-requested (starts_again e r) h = h

Step-requested :
    {w : Bool} {s t : Flags} → Step w s t → s.stop_requested ≡ true → t.stop_requested ≡ true
unfolding on_signal on_control request_restart
Step-requested (main_step m) h = MainStep-requested m h
Step-requested (signalled e) h = h
Step-requested (controlled e) h = refl
Step-requested (reload_asked e) h = h

Reach-requested :
    {w : Bool} {s t : Flags} → Reach w s t → s.stop_requested ≡ true → t.stop_requested ≡ true
Reach-requested here h = h
Reach-requested (next r m) h = Step-requested m (Reach-requested r h)

Runs-requested :
    {s : Flags} {n : ℕ} {t : Flags} → Runs s n t → s.stop_requested ≡ true → t.stop_requested ≡ true
Runs-requested stays h = h
Runs-requested (goes_on r m) h = MainStep-requested m (Runs-requested r h)

-- A stop that the service manager asks for is never lost: from any state that is reached behind the
-- control, in any interleaving with signals, reloads and further controls, whatever the main thread
-- alone does, it makes at most 8 steps, and it makes a further one until it is behind the loop or
-- _startup has failed.
pub control-ends :
    (w : Bool) (s t : Flags) (n : ℕ) (u : Flags)
    → Reach w (on_control s) t
    → Runs t n u
    → (n ≤ 8) × ((is_over u.phase ≡ true) ⊎ ((v : Flags) × MainStep u v))
unfolding on_control wakes
control-ends w s t n u r run =
    let h = Runs-requested run (Reach-requested r refl) in
    (Runs-le run, next_step u u.phase refl (λ e. ground arith))
