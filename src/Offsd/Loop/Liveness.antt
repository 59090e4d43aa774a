-- ===== src/Offsd/Loop/Liveness.antt =====
-- The daemon's loop comes to an end (`_run_offsd`, src/offsd/main.c).
use offs.Base.{Bool, true, false, Option, List, [], ◌∷◌, Bytes, ◌≡◌, refl, arith}
use offs.Offsd.Args.{OffsdArgs}
use offs.Offsd.Life.{Server, Trace}
use offs.Offsd.Startup.{Config}
use offs.Offsd.Startup.Stages.{Attempt, booted, failed, startup}
use offs.Offsd.Loop.{
  Poll, Cycle, notices, Exit, exited, waiting, Turn, over, again, after_shutdown, after_waiting,
  after_startup, after_pid_file, run_cycle, follow, run_cycles,
}

-- A round of the waiting loop in which one of the three flags asks for its end.
pub data Asks (p : Poll) : Type 0 where
  signalled : p.running ≡ false → Asks p
  told_to_stop : p.stop_requested ≡ true → Asks p
  told_to_restart : p.restart_requested ≡ true → Asks p

pub data SomeAsks : List Poll → Type 0 where
  now : {p : Poll} {polls : List Poll} → Asks p → SomeAsks (p ∷ polls)
  afterwards : {p : Poll} {polls : List Poll} → SomeAsks polls → SomeAsks (p ∷ polls)

-- Each cycle is asked to end, up to one after whose shutdown no restart is requested.
pub data WillStop : List Cycle → Type 0 where
  last :
      {c : Cycle} {cycles : List Cycle}
      → SomeAsks c.polls
      → c.restart_after ≡ false
      → WillStop (c ∷ cycles)
  restarts :
      {c : Cycle} {cycles : List Cycle} → SomeAsks c.polls → WillStop cycles → WillStop (c ∷ cycles)

-- The loop's test reads each of the flags.
SomeAsks-notices : {polls : List Poll} → SomeAsks polls → notices polls ≡ true
unfolding notices
SomeAsks-notices (now (signalled e)) = ground arith
SomeAsks-notices (now (told_to_stop e)) = ground arith
SomeAsks-notices (now (told_to_restart e)) = ground arith
SomeAsks-notices (afterwards asks) = let h = SomeAsks-notices asks in ground arith

unfoldable pub has_exited : Exit → Bool
has_exited (exited status t) = true
has_exited (waiting t) = false

-- Whether a cycle ends the loop or goes on as a requested restart asks.
moves_on : Turn → Bool → Bool
moves_on (over end) restart = has_exited end
moves_on (again override a t) restart = restart

after_shutdown-moves_on :
    (restart : Bool) (a : OffsdArgs) (t : Trace) (c : Cycle)
    → moves_on (after_shutdown restart a t c) restart ≡ true
unfolding after_shutdown moves_on has_exited
after_shutdown-moves_on false a t c = refl
after_shutdown-moves_on true a t c = refl

after_waiting-moves_on :
    (noticed : Bool) (a : OffsdArgs) (s : Server) (t : Trace) (c : Cycle)
    → noticed ≡ true
    → moves_on (after_waiting noticed a s t c) c.restart_after ≡ true
unfolding after_waiting
after_waiting-moves_on false a s t c noticed = absurd (ground arith)
after_waiting-moves_on true a s t c noticed = after_shutdown-moves_on c.restart_after a _ c

after_startup-moves_on :
    (attempt : Attempt) (pid_file : Option Bytes) (c : Cycle)
    → notices c.polls ≡ true
    → moves_on (after_startup attempt pid_file c) c.restart_after ≡ true
unfolding after_startup moves_on has_exited
after_startup-moves_on (failed t) pid_file c noticed = refl
after_startup-moves_on (booted conf a s t) pid_file c noticed =
    after_waiting-moves_on (notices c.polls) a s _ c noticed

after_pid_file-moves_on :
    (ok : Bool) (override : Option Config) (a : OffsdArgs) (c : Cycle) (t : Trace)
    → notices c.polls ≡ true
    → moves_on (after_pid_file ok override a c t) c.restart_after ≡ true
unfolding after_pid_file moves_on has_exited
after_pid_file-moves_on false override a c t noticed = refl
after_pid_file-moves_on true override a c t noticed =
    after_startup-moves_on (startup c.outside override a t) a.pid_file c noticed

follow-has_exited :
    (turn : Turn) (restart : Bool) (next : Option Config → OffsdArgs → Trace → Exit)
    → moves_on turn restart ≡ true
    → (restart ≡ true
        → (override : Option Config) (a : OffsdArgs) (t : Trace)
        → has_exited (next override a t) ≡ true)
    → has_exited (follow turn next) ≡ true
unfolding moves_on
follow-has_exited (over end) restart next moved goes_on = moved
follow-has_exited (again override a t) restart next moved goes_on = goes_on moved override a t

-- If in each cycle there is a round in which `running` is cleared, or a stop of the service
-- requested, or a restart requested, each flag on its own being enough, up to a cycle whose shutdown
-- leaves no restart requested, then the daemon exits, whatever fails on the way.
pub run_cycles-has_exited :
    (cycles : List Cycle) (override : Option Config) (a : OffsdArgs) (t : Trace)
    → WillStop cycles
    → has_exited (run_cycles override a cycles t) ≡ true
unfolding run_cycles run_cycle
run_cycles-has_exited [] override a t stops = elim stops [ ]
run_cycles-has_exited (c ∷ cycles) override a t (last asks stays) =
    follow-has_exited (run_cycle override a c t) c.restart_after _
      (after_pid_file-moves_on _ override a c _ (SomeAsks-notices asks))
      (λ restart override a t. absurd (ground arith))
run_cycles-has_exited (c ∷ cycles) override a t (restarts asks stops) =
    follow-has_exited (run_cycle override a c t) c.restart_after _
      (after_pid_file-moves_on _ override a c _ (SomeAsks-notices asks))
      (λ restart override a t. run_cycles-has_exited cycles override a t stops)
