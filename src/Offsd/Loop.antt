-- ===== src/Offsd/Loop.antt =====
-- The cycles of `_run_offsd` (src/offsd/main.c): each starts the server, waits for one of three
-- flags, and shuts the server down; a requested restart goes on with the next cycle.

pub mod Exits
pub mod Liveness
use offs.Base.{
  ℕ, Bool, true, false, not, ◌&&◌, ◌||◌, Option, none, some, List, [], ◌∷◌, Bytes, if◌then◌else◌,
}
use offs.Offsd.Args.{OffsdArgs}
use offs.Offsd.Life.{members, created, applied_pending, wrote_pid, Server, Trace, destroy_if}
use offs.Offsd.Startup.{Config, Outside}
use offs.Offsd.Startup.Stages.{Attempt, booted, failed, override_server, startup}
use offs.Offsd.Listen.{Net, start_listening}
use offs.Offsd.Shutdown.{remove_pid_file, shutdown}

-- The flags as one round of the waiting loop reads them: `running`, the service's stop request,
-- `g_restart_requested`.
pub record Poll : Type 0 where
  pub running : Bool
  pub stop_requested : Bool
  pub restart_requested : Bool

-- What one cycle meets: the calls' results, whether the PID file can be written, the flags in the
-- rounds of waiting, the restart flag after the shutdown, and a pending configuration.
pub record Cycle : Type 0 where
  pub outside : Outside
  pub net : Net
  pub pid_ok : Bool
  pub polls : List Poll
  pub restart_after : Bool
  -- config_pending_exists and config_pending_load
  pub pending_exists : Bool
  pub pending : Option Config

-- Whether the waiting loop ends.
unfoldable pub notices : List Poll → Bool
notices [] = false
notices (p ∷ polls) = not p.running || p.stop_requested || p.restart_requested || notices polls

-- `_write_pid_file`: its result, and the call.
unfoldable pub write_pid_file : Option Bytes → Bool → Trace → Bool × Trace
write_pid_file none ok t = (true, t)
write_pid_file (some path) ok t = (ok, wrote_pid ok ∷ t)

-- A pending file that is there, and loads or not.
unfoldable pub load_existing : Bool → Option Config → Trace → Option Config × Trace
load_existing true (some c) t = (some c, applied_pending ∷ created members true ∷ t)
load_existing true none t = (none, t)
load_existing false c t = (none, t)

-- `_load_pending_override`
unfoldable pub load_pending_override :
    Option Bytes → Bool → Option Config → Trace → Option Config × Trace
load_pending_override none exists loaded t = (none, t)
load_pending_override (some dir) exists loaded t = load_existing exists loaded t

-- The end of the loop with an exit status; `waiting` where the cycles that are known do not end it.
pub data Exit : Type 0 where
  exited : ℕ → Trace → Exit
  waiting : Trace → Exit

-- How one cycle ends: the loop is over, or it goes on with a pending configuration or none.
pub data Turn : Type 0 where
  over : Exit → Turn
  again : Option Config → OffsdArgs → Trace → Turn

-- From the test of the restart flag on.
unfoldable pub after_shutdown : Bool → OffsdArgs → Trace → Cycle → Turn
after_shutdown false a t c = over (exited 0 t)
after_shutdown true a t c =
    let (override, longer) = load_pending_override a.config_dir c.pending_exists c.pending t in
    again override a longer

-- From the waiting loop on.
unfoldable pub after_waiting : Bool → OffsdArgs → Server → Trace → Cycle → Turn
after_waiting false a s t c = over (waiting t)
after_waiting true a s t c = after_shutdown c.restart_after a (shutdown s a.pid_file t) c

-- From the result of _startup on.
unfoldable pub after_startup : Attempt → Option Bytes → Cycle → Turn
after_startup (failed t) pid_file c = over (exited 1 (remove_pid_file pid_file t))
after_startup (booted conf a s t) pid_file c =
    after_waiting (notices c.polls) a s (start_listening c.net s a t) c

-- From the result of _write_pid_file on.
unfoldable pub after_pid_file : Bool → Option Config → OffsdArgs → Cycle → Trace → Turn
after_pid_file false override a c t =
    over (exited 1 (destroy_if members (override_server override) t))
after_pid_file true override a c t = after_startup (startup c.outside override a t) a.pid_file c

-- The body of the loop.
unfoldable pub run_cycle : Option Config → OffsdArgs → Cycle → Trace → Turn
run_cycle override a c t =
    let (ok, longer) = write_pid_file a.pid_file c.pid_ok t in after_pid_file ok override a c longer

-- What follows a cycle.
abbrev pub follow : Turn → (Option Config → OffsdArgs → Trace → Exit) → Exit
follow (over end) next = end
follow (again override a t) next = next override a t

-- The loop.
unfoldable pub run_cycles : Option Config → OffsdArgs → List Cycle → Trace → Exit
run_cycles override a [] t = waiting t
run_cycles override a (c ∷ cycles) t =
    follow (run_cycle override a c t) (λ override a t. run_cycles override a cycles t)
