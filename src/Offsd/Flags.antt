-- ===== src/Offsd/Flags.antt =====
-- The flags that the main loop of `_run_offsd` shares with the signal handler, the handler of the
-- Windows service and the scheduler's workers (src/offsd/main.c, src/Service/daemon_service_windows.c):
-- every interleaving of the main thread's steps with those of the others.
pub mod Stops
pub mod Lost
pub mod Progress
use offs.Base.{ℕ, zero, suc, Bool, true, false, not, ◌||◌, if◌then◌else◌, ◌≡◌, ◌≢◌}

-- Where the main thread is: in front of the assignment of `running` in _startup; behind it; in the loop;
-- in _shutdown; behind the loop with the status 0 or 1.
pub data Phase : Type 0 where
  booting preparing waiting tearing ended failed : Phase

-- The flags: node.running, g_stop_requested, g_restart_requested, and whether g_node and the
-- handlers are set; and two of the past: a stop was asked for, a reload was requested.
pub record Flags : Type 0 where
  pub phase : Phase
  pub running : Bool
  pub stop_requested : Bool
  pub restart_requested : Bool
  pub handled : Bool
  pub asked : Bool
  pub reloaded : Bool

abbrev pub at_start : Flags
at_start = record {
  phase = booting;
  running = false;
  stop_requested = false;
  restart_requested = false;
  handled = false;
  asked = false;
  reloaded = false;
}

-- The negated condition of the waiting loop.
unfoldable pub wakes : Flags → Bool
wakes s = not s.running || s.stop_requested || s.restart_requested

-- The handlers of signals, of the service's controls and of reload requests.
unfoldable pub on_signal : Flags → Flags
on_signal s = record s { running = false; asked = true }

-- `_service_ctrl_handler`, which calls `_service_stop_handler` where that is registered.
unfoldable pub on_control : Flags → Flags
on_control s = record s {
  running = if s.handled then false else s.running;
  stop_requested = true;
  asked = true;
}

-- `_request_restart`
unfoldable pub request_restart : Flags → Flags
request_restart s = record s { restart_requested = true; reloaded = true }

-- A step of the main thread.
pub data MainStep (s : Flags) : Flags → Type 0 where
  boots : s.phase ≡ booting → MainStep s (record s { phase = preparing; running = true })
  fails : s.phase ≡ booting → MainStep s (record s { phase = failed })
  fails_late : s.phase ≡ preparing → MainStep s (record s { phase = failed })
  registers : s.phase ≡ preparing → MainStep s (record s { phase = waiting; handled = true })
  leaves_loop : s.phase ≡ waiting → wakes s ≡ true → MainStep s (record s { phase = tearing })
  ends : s.phase ≡ tearing → s.restart_requested ≡ false → MainStep s (record s { phase = ended })
  starts_again :
      s.phase ≡ tearing
      → s.restart_requested ≡ true
      → MainStep s (record s { phase = booting; restart_requested = false })

-- A step of any thread. The service's controls exist on Windows alone.
pub data Step (is_windows : Bool) (s : Flags) : Flags → Type 0 where
  main_step : {t : Flags} → MainStep s t → Step is_windows s t
  signalled : s.handled ≡ true → Step is_windows s (on_signal s)
  controlled : is_windows ≡ true → Step is_windows s (on_control s)
  reload_asked : s.phase ≢ ended → Step is_windows s (request_restart s)

pub data Reach (is_windows : Bool) (s : Flags) : Flags → Type 0 where
  here : Reach is_windows s s
  next : {t u : Flags} → Reach is_windows s t → Step is_windows t u → Reach is_windows s u

-- So many steps of the main thread alone.
pub data Runs (s : Flags) : ℕ → Flags → Type 0 where
  stays : Runs s zero s
  goes_on : {n : ℕ} {t u : Flags} → Runs s n t → MainStep t u → Runs s (suc n) u

-- The main thread is behind the loop or has failed.
unfoldable pub is_over : Phase → Bool
is_over booting = false
is_over preparing = false
is_over waiting = false
is_over tearing = false
is_over ended = true
is_over failed = true
