-- ===== src/Offsd/Loop/Exits.antt =====
-- How the daemon's loop ends (`_run_offsd`, src/offsd/main.c), and what is alive then.
use offs.Base.{
  zero, suc, Bool, true, false, Option, none, some, List, [], ◌∷◌, Bytes, ◌≡◌, refl, arith,
}
use offs.Offsd.Args.{OffsdArgs}
use offs.Offsd.Life.{
  members, created, applied_pending, wrote_pid, removed_pid, Server, no_server, set, Trace, live,
  safe, is_released,
}
use offs.Offsd.Life.Steps.{Leaves, leaves, live-Leaves, safe-Leaves, call-Leaves, destroy_if-Leaves}
use offs.Offsd.Startup.{Config}
use offs.Offsd.Startup.Stages.{Attempt, booted, failed, override_server, startup}
use offs.Offsd.Startup.Release.{is_serving, Owned}
use offs.Offsd.Startup.Ends.{startup-Owned}
use offs.Offsd.Listen.{start_listening, start_listening-Leaves}
use offs.Offsd.Shutdown.{remove_pid_file, shutdown}
use offs.Offsd.Shutdown.Order.{shutdown-live}
use offs.Offsd.Loop.{
  Cycle, notices, write_pid_file, load_existing, load_pending_override, Exit, exited, waiting, Turn,
  over, again, after_shutdown, after_waiting, after_startup, after_pid_file, run_cycle, follow,
  run_cycles,
}

-- What is alive at the end of the loop: nothing with the status 0, at most the configuration's
-- strings and the authority with another status. All calls up to there were allowed.
unfoldable pub Ended : Exit → Type 0
Ended (exited zero t) = (live t ≡ no_server) × (safe t ≡ true)
Ended (exited (suc n) t) = (is_released (live t) ≡ true) × (safe t ≡ true)
Ended (waiting t) = safe t ≡ true

-- The same of one cycle, which may also leave the override of the next.
Turned : Turn → Type 0
Turned (over end) = Ended end
Turned (again override a t) = Leaves (override_server override) t

released-Ended : {s : Server} {t : Trace} → is_released s ≡ true → Leaves s t → Ended (exited 1 t)
unfolding Ended
released-Ended empty (leaves alive fine) = (rw alive empty, fine)

remove_pid_file-Leaves :
    (pid_file : Option Bytes) {s : Server} {t : Trace}
    → Leaves s t
    → Leaves s (remove_pid_file pid_file t)
unfolding remove_pid_file
remove_pid_file-Leaves none so_far = so_far
remove_pid_file-Leaves (some path) so_far = call-Leaves removed_pid refl so_far

load_existing-Leaves :
    (exists : Bool) (c : Option Config) {t : Trace}
    → Leaves no_server t
    → Leaves (override_server (load_existing exists c t).0) (load_existing exists c t).1
unfolding load_existing
load_existing-Leaves true (some c) so_far =
    call-Leaves applied_pending refl (call-Leaves (created members true) refl so_far)
load_existing-Leaves true none so_far = so_far
load_existing-Leaves false c so_far = so_far

pub load_pending_override-Leaves :
    (dir : Option Bytes) (exists : Bool) (c : Option Config) {t : Trace}
    → Leaves no_server t
    → Leaves
        (override_server (load_pending_override dir exists c t).0)
        (load_pending_override dir exists c t).1
unfolding load_pending_override
load_pending_override-Leaves none exists c so_far = so_far
load_pending_override-Leaves (some dir) exists c so_far = load_existing-Leaves exists c so_far

after_shutdown-Turned :
    (restart : Bool) (a : OffsdArgs) (t : Trace) (c : Cycle)
    → live t ≡ no_server
    → safe t ≡ true
    → Turned (after_shutdown restart a t c)
unfolding after_shutdown Turned Ended
after_shutdown-Turned false a t c empty fine = (empty, fine)
after_shutdown-Turned true a t c empty fine =
    load_pending_override-Leaves a.config_dir c.pending_exists c.pending (leaves empty fine)

after_waiting-Turned :
    (noticed : Bool) (a : OffsdArgs) (s : Server) (t : Trace) (c : Cycle)
    → live t ≡ s
    → safe t ≡ true
    → is_serving s ≡ true
    → Turned (after_waiting noticed a s t c)
unfolding after_waiting Turned Ended
after_waiting-Turned false a s t c alive fine up = fine
after_waiting-Turned true a s t c alive fine up =
    let (empty, still_fine, _) =
      shutdown-live s a.pid_file t alive fine (ground arith) (ground arith) in
    after_shutdown-Turned c.restart_after a (shutdown s a.pid_file t) c empty still_fine

after_startup-Turned :
    (may_leak : Bool) (attempt : Attempt) (pid_file : Option Bytes) (c : Cycle)
    → Owned may_leak attempt
    → Turned (after_startup attempt pid_file c)
unfolding after_startup Turned Owned
after_startup-Turned may_leak (failed t) pid_file c (empty, fine, _) =
    released-Ended empty (remove_pid_file-Leaves pid_file (leaves refl fine))
after_startup-Turned may_leak (booted conf a s t) pid_file c (alive, fine, up) =
    let after = start_listening-Leaves c.net a (ground arith) (ground arith) (leaves alive fine) in
    after_waiting-Turned (notices c.polls) a s (start_listening c.net s a t) c (live-Leaves after)
      (safe-Leaves after) up

after_pid_file-Turned :
    (ok : Bool) (override : Option Config) (a : OffsdArgs) (c : Cycle) {t : Trace}
    → Leaves (override_server override) t
    → Turned (after_pid_file ok override a c t)
unfolding after_pid_file Turned Ended
after_pid_file-Turned false none a c so_far =
    released-Ended refl (destroy_if-Leaves members no_server refl refl so_far)
after_pid_file-Turned false (some conf) a c so_far =
    released-Ended refl (destroy_if-Leaves members (set members true no_server) refl refl so_far)
after_pid_file-Turned true override a c {t} so_far =
    after_startup-Turned _ (startup c.outside override a t) a.pid_file c
      (startup-Owned c.outside override a t (live-Leaves so_far) (safe-Leaves so_far))

write_pid_file-Leaves :
    (path : Option Bytes) (ok : Bool) {s : Server} {t : Trace}
    → Leaves s t
    → Leaves s (write_pid_file path ok t).1
unfolding write_pid_file
write_pid_file-Leaves none ok so_far = so_far
write_pid_file-Leaves (some path) ok so_far = call-Leaves (wrote_pid ok) refl so_far

run_cycle-Turned :
    (override : Option Config) (a : OffsdArgs) (c : Cycle) {t : Trace}
    → Leaves (override_server override) t
    → Turned (run_cycle override a c t)
unfolding run_cycle
run_cycle-Turned override a c {t} so_far =
    after_pid_file-Turned (write_pid_file a.pid_file c.pid_ok t).0 override a c
      (write_pid_file-Leaves a.pid_file c.pid_ok so_far)

follow-Ended :
    (turn : Turn) (next : Option Config → OffsdArgs → Trace → Exit)
    → Turned turn
    → ((override : Option Config) (a : OffsdArgs) (t : Trace)
        → Leaves (override_server override) t
        → Ended (next override a t))
    → Ended (follow turn next)
unfolding Turned
follow-Ended (over end) next ended goes_on = ended
follow-Ended (again override a t) next so_far goes_on = goes_on override a t so_far

pub Leaves-Ended :
    (cycles : List Cycle) (override : Option Config) (a : OffsdArgs) (t : Trace)
    → Leaves (override_server override) t
    → Ended (run_cycles override a cycles t)
unfolding run_cycles Ended
Leaves-Ended [] override a t so_far = safe-Leaves so_far
Leaves-Ended (c ∷ cycles) override a t so_far =
    follow-Ended (run_cycle override a c t) _ (run_cycle-Turned override a c so_far)
      (Leaves-Ended cycles)

-- Whatever the machine answers and whenever the flags are set, over any number of restarts: each
-- call that the daemon's loop makes on its parts is allowed, a daemon that exits with 0 has
-- destroyed all parts, and one that exits with 1 all but the configuration's strings and the
-- authority; the start of the loop has nothing alive but the override's strings.
pub run_cycles-Ended :
    (cycles : List Cycle) (override : Option Config) (a : OffsdArgs) (t : Trace)
    → live t ≡ override_server override
    → safe t ≡ true
    → Ended (run_cycles override a cycles t)
run_cycles-Ended cycles override a t alive fine =
    Leaves-Ended cycles override a t (leaves alive fine)
