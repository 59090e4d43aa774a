-- ===== src/Offsd/Flags/Stops.antt =====
-- Stops that are asked for, and stops that are made (src/offsd/main.c).
use offs.Base.{◌⊎◌, ℕ, ◌≤◌, ◌∙◌, Bool, true, false, not, ◌&&◌, ◌||◌, ◌≡◌, ◌≢◌, refl, arith}
use offs.Offsd.Flags.Progress.{Runs-le, next_step}
use offs.Offsd.Flags.{
  is_over, Phase, booting, preparing, waiting, tearing, ended, failed, Flags, at_start, wakes,
  on_signal, on_control, request_restart, MainStep, boots, fails, fails_late, registers,
  leaves_loop, ends, starts_again, Runs, stays, goes_on, Step, main_step, signalled, controlled,
  reload_asked, Reach, here, next,
}

-- Whether the main thread is behind the assignment of `running` and in front of the loop's end.
unfoldable pub is_up : Phase → Bool
is_up booting = false
is_up preparing = true
is_up waiting = true
is_up tearing = true
is_up ended = true
is_up failed = false

-- `running` is cleared, and a stop requested, only where a stop was asked for.
record IsJustified (s : Flags) : Type 0 where
  cleared : is_up s.phase ≡ true → s.running ≡ false → s.asked ≡ true
  requested : s.stop_requested ≡ true → s.asked ≡ true
  left : s.phase ≡ tearing → s.restart_requested ≡ false → s.asked ≡ true
  over : s.phase ≡ ended → s.asked ≡ true

MainStep-IsJustified : {s t : Flags} → MainStep s t → IsJustified s → IsJustified t
unfolding is_up wakes
MainStep-IsJustified (boots e) i = ground arith
MainStep-IsJustified (fails e) i = ground arith
MainStep-IsJustified (fails_late e) i = ground arith
MainStep-IsJustified (registers e) i = ground arith
MainStep-IsJustified (leaves_loop e w) i = ground arith
MainStep-IsJustified (ends e r) i = ground arith
MainStep-IsJustified (starts_again e r) i = ground arith

Step-IsJustified : {w : Bool} {s t : Flags} → Step w s t → IsJustified s → IsJustified t
unfolding on_signal on_control request_restart
Step-IsJustified (main_step m) i = MainStep-IsJustified m i
Step-IsJustified (signalled h) i = ground arith
Step-IsJustified (controlled h) i = ground arith
Step-IsJustified (reload_asked h) i = ground arith

Reach-IsJustified : {w : Bool} {s : Flags} → Reach w at_start s → IsJustified s
unfolding is_up
Reach-IsJustified here = ground arith
Reach-IsJustified (next r m) = Step-IsJustified m (Reach-IsJustified r)

-- In every interleaving of the main thread with signals, controls of the service and requests for
-- a reload, on POSIX and on Windows: the loop is left with the status 0 only after a stop was asked
-- for by a signal or a control. How a startup that fails ends the daemon is not meant here.
pub ended-asked : (w : Bool) (s : Flags) → Reach w at_start s → s.phase ≡ ended → s.asked ≡ true
ended-asked w s r e = (Reach-IsJustified r).over e

-- As long as no reload was requested.
record IsPlain (s : Flags) : Type 0 where
  no_restart : s.reloaded ≡ false → s.restart_requested ≡ false
  first : s.reloaded ≡ false → s.handled ≡ true → (s.phase ≢ booting) × (s.phase ≢ preparing)
  kept :
      s.reloaded ≡ false
      → s.asked ≡ true
      → (s.stop_requested || (s.handled && not s.running)) ≡ true

MainStep-IsPlain : {s t : Flags} → MainStep s t → IsPlain s → IsPlain t
unfolding wakes
MainStep-IsPlain (boots e) i = ground arith
MainStep-IsPlain (fails e) i = ground arith
MainStep-IsPlain (fails_late e) i = ground arith
MainStep-IsPlain (registers e) i = ground arith
MainStep-IsPlain (leaves_loop e w) i = ground arith
MainStep-IsPlain (ends e r) i = ground arith
MainStep-IsPlain (starts_again e r) i = ground arith

Step-IsPlain : {w : Bool} {s t : Flags} → Step w s t → IsPlain s → IsPlain t
unfolding on_signal on_control request_restart
Step-IsPlain (main_step m) i = MainStep-IsPlain m i
Step-IsPlain (signalled h) i = ground arith
Step-IsPlain (controlled h) i = ground arith
Step-IsPlain (reload_asked h) i = ground arith

Reach-IsPlain : {w : Bool} {s : Flags} → Reach w at_start s → IsPlain s
Reach-IsPlain here = ground arith
Reach-IsPlain (next r m) = Step-IsPlain m (Reach-IsPlain r)

MainStep-history : {s t : Flags} → MainStep s t → (t.reloaded ≡ s.reloaded) × (t.asked ≡ s.asked)
MainStep-history (boots e) = (refl, refl)
MainStep-history (fails e) = (refl, refl)
MainStep-history (fails_late e) = (refl, refl)
MainStep-history (registers e) = (refl, refl)
MainStep-history (leaves_loop e w) = (refl, refl)
MainStep-history (ends e r) = (refl, refl)
MainStep-history (starts_again e r) = (refl, refl)

Runs-IsPlain :
    {s : Flags} {n : ℕ} {t : Flags}
    → Runs s n t
    → IsPlain s
    → IsPlain t × (t.reloaded ≡ s.reloaded) × (t.asked ≡ s.asked)
Runs-IsPlain stays i = (i, refl, refl)
Runs-IsPlain (goes_on r m) i =
    let (j, a, b) = Runs-IsPlain r i in
    let (c, d) = MainStep-history m in (MainStep-IsPlain m j, c ∙ a, d ∙ b)

-- Where no reload was requested, a stop that was asked for is carried out: whatever the main thread
-- alone does from there, it makes at most 8 steps, and it makes a further one until it is behind the
-- loop or _startup has failed.
pub asked-ends :
    (w : Bool) (s : Flags) (n : ℕ) (t : Flags)
    → Reach w at_start s
    → s.reloaded ≡ false
    → s.asked ≡ true
    → Runs s n t
    → (n ≤ 8) × ((is_over t.phase ≡ true) ⊎ ((u : Flags) × MainStep t u))
unfolding wakes
asked-ends w s n t r plain asked run =
    let (i, a, b) = Runs-IsPlain run (Reach-IsPlain r) in
    (Runs-le run, next_step t t.phase refl (λ e. ground (arith, i.kept (a ∙ plain) (b ∙ asked))))
