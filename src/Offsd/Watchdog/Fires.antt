-- ===== src/Offsd/Watchdog/Fires.antt =====
-- When the watchdog ends the process (src/offsd/main.c).
use offs.Base.{ℕ, zero, suc, ◌+◌, ◌-◌, true, false, ◌≡◌, ◌≤◌, arith}
use offs.Offsd.Watchdog.{
  shutdown_watchdog_ms, last_words_ms, Watch, no_watch, arm, disarm, pass, wake, end_process, Tick,
  arms, disarms, passes, wakes_up, dies, ends, Ticks, still, later,
}

-- A shutdown that goes on has not taken longer than the thread has slept in its round and since its
-- decision to kill, and as long where it is the first; that decision falls at the end of a round.
record IsWatched (s : Watch) : Type 0 where
  unborn : s.created ≡ false → s.slept_ms ≡ 0
  asleep : s.slept_ms ≤ shutdown_watchdog_ms
  behind : s.active ≡ true → s.created ≡ true → s.teardown_ms ≤ s.slept_ms + s.dying_ms
  same :
      s.completed ≡ 0 → s.active ≡ true → s.created ≡ true → s.teardown_ms ≡ s.slept_ms + s.dying_ms
  fresh : s.completed ≡ 0 → s.active ≡ false → s.created ≡ false
  doomed : s.killed ≡ true → (s.created ≡ true) × (s.slept_ms ≡ shutdown_watchdog_ms)
  living : s.killed ≡ false → (s.dying_ms ≡ 0) × (s.gone ≡ false)
  dying : s.dying_ms ≤ last_words_ms
  ended : s.gone ≡ true → s.dying_ms ≡ last_words_ms

Tick-IsWatched : {s t : Watch} → Tick s t → IsWatched s → IsWatched t
unfolding arm disarm pass wake end_process
Tick-IsWatched (arms ok k a) i = ground arith
Tick-IsWatched (disarms k a) i = ground arith
Tick-IsWatched (passes k b) i = ground arith
Tick-IsWatched (wakes_up k c e) i = ground arith
Tick-IsWatched (dies k a b) i = ground arith
Tick-IsWatched (ends k a e) i = ground arith

Ticks-IsWatched : {s : Watch} → Ticks no_watch s → IsWatched s
Ticks-IsWatched still = ground arith
Ticks-IsWatched (later r m) = Tick-IsWatched m (Ticks-IsWatched r)

-- Over any number of shutdowns, where the thread could be created: a shutdown that goes on has taken
-- at most 45 s as long as the watchdog has not decided to kill the process, and at most the 45 s and
-- the 100 ms that the watchdog sleeps before _exit in any case; and where _exit ends the process in
-- the first shutdown, this one has taken exactly the 45.1 s.
pub watchdog_bounds :
    (s : Watch)
    → Ticks no_watch s
    → s.created ≡ true
    → (s.active ≡ true → s.killed ≡ false → s.teardown_ms ≤ shutdown_watchdog_ms)
      × (s.active ≡ true → s.teardown_ms ≤ shutdown_watchdog_ms + last_words_ms)
      × (s.completed ≡ 0 → s.gone ≡ true → s.teardown_ms ≡ shutdown_watchdog_ms + last_words_ms)
watchdog_bounds s r c = let i = Ticks-IsWatched r in ground (arith, i.asleep)

-- A shutdown that goes on, with the thread there.
record IsGoing (slept teardown : ℕ) (s : Watch) : Type 0 where
  alive : s.killed ≡ false
  goes : s.active ≡ true
  there : s.created ≡ true
  slept_for : s.slept_ms ≡ slept
  taken : s.teardown_ms ≡ teardown

passes_on :
    (n slept teardown : ℕ) (s : Watch)
    → IsGoing slept teardown s
    → slept + n ≤ shutdown_watchdog_ms
    → (t : Watch) × Ticks s t × IsGoing (slept + n) (teardown + n) t
unfolding pass
passes_on zero slept teardown s g h = (s, still, ground arith)
passes_on (suc n) slept teardown s g h =
    let (t, r, g') = passes_on n slept teardown s g (omega arith) in
    (pass t, later r (passes g'.alive (ground arith)), ground arith)

wake-killed :
    (teardown : ℕ) (s : Watch)
    → IsGoing shutdown_watchdog_ms teardown s
    → (t : Watch) × Ticks s t × (t.killed ≡ true) × (t.teardown_ms ≡ teardown)
unfolding wake
wake-killed teardown s g =
    (wake s, later still (wakes_up g.alive g.there g.slept_for), ground arith, ground arith)

Ticks-append : {s t u : Watch} → Ticks s t → Ticks t u → Ticks s u
Ticks-append first still = first
Ticks-append first (later rest m) = later (Ticks-append first rest) m

-- A shutdown that is not the first has only what is left of the thread's round: begun when the
-- thread, which is created, has slept for k ms since its last test, it is ended by the watchdog
-- where it takes 45 s less k ms, however little that is.
pub watchdog_cuts :
    (s : Watch)
    → Ticks no_watch s
    → s.created ≡ true
    → s.active ≡ false
    → s.killed ≡ false
    → (t : Watch) × Ticks s t
      × (t.killed ≡ true)
      × (t.teardown_ms ≡ shutdown_watchdog_ms - s.slept_ms)
unfolding arm
watchdog_cuts s r c a k =
    let i = Ticks-IsWatched r in
    let left = shutdown_watchdog_ms - s.slept_ms in
    let armed : IsGoing s.slept_ms 0 (arm true s) = ground arith in
    let (t, r', g) = passes_on left s.slept_ms 0 (arm true s) armed (omega (arith, i.asleep)) in
    let g' : IsGoing shutdown_watchdog_ms left t = ground (arith, i.asleep) in
    let (u, r'', dead, took) = wake-killed left t g' in
    (u, Ticks-append (Ticks-append (later still (arms true (i.living k).1 a)) r') r'', dead, took)
