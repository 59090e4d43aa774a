-- ===== src/Offsd/Flags/Progress.antt =====
-- The main thread alone goes on to its end or to the waiting loop (src/offsd/main.c).
use offs.Base.{
  if◌then◌else◌, ℕ, ◌+◌, ◌≤◌, ◌<◌, Bool, true, ◌≡◌, ◌⊎◌, inl, inr, refl, arith, Bool-cases,
}
use offs.Offsd.Flags.{
  Phase, booting, preparing, waiting, tearing, ended, failed, Flags, wakes, MainStep, boots, fails,
  fails_late, registers, leaves_loop, ends, starts_again, Runs, stays, goes_on, is_over,
}

-- How many steps the main thread makes at most.
unfoldable pub steps_left : Phase → Bool → ℕ
steps_left booting restart = if restart then 8 else 4
steps_left preparing restart = if restart then 7 else 3
steps_left waiting restart = if restart then 6 else 2
steps_left tearing restart = if restart then 5 else 1
steps_left ended restart = 0
steps_left failed restart = 0

steps_left-le : (phase : Phase) (restart : Bool) → steps_left phase restart ≤ 8
unfolding steps_left
steps_left-le booting restart = ground arith
steps_left-le preparing restart = ground arith
steps_left-le waiting restart = ground arith
steps_left-le tearing restart = ground arith
steps_left-le ended restart = ground arith
steps_left-le failed restart = ground arith

MainStep-steps_left :
    {s t : Flags}
    → MainStep s t
    → steps_left t.phase t.restart_requested < steps_left s.phase s.restart_requested
unfolding steps_left
MainStep-steps_left (boots e) = ground arith
MainStep-steps_left (fails e) = ground arith
MainStep-steps_left (fails_late e) = ground arith
MainStep-steps_left (registers e) = ground arith
MainStep-steps_left (leaves_loop e w) = ground arith
MainStep-steps_left (ends e r) = ground arith
MainStep-steps_left (starts_again e r) = ground arith

Runs-steps_left :
    {s : Flags} {n : ℕ} {t : Flags}
    → Runs s n t
    → n + steps_left t.phase t.restart_requested ≤ steps_left s.phase s.restart_requested
Runs-steps_left stays = omega arith
Runs-steps_left (goes_on r m) = omega (arith, Runs-steps_left r, MainStep-steps_left m)

pub Runs-le : {s : Flags} {n : ℕ} {t : Flags} → Runs s n t → n ≤ 8
Runs-le {s} r = omega (arith, Runs-steps_left r, steps_left-le s.phase s.restart_requested)

-- A step of the main thread is possible unless it is over, or waits with no flag set.
pub next_step :
    (s : Flags) (phase : Phase)
    → s.phase ≡ phase
    → (phase ≡ waiting → wakes s ≡ true)
    → (is_over phase ≡ true) ⊎ ((t : Flags) × MainStep s t)
unfolding is_over
next_step s booting e h = inr (_, boots e)
next_step s preparing e h = inr (_, registers e)
next_step s waiting e h = inr (_, leaves_loop e (h refl))
next_step s tearing e h = elim (Bool-cases s.restart_requested) [
  | inl r ↦ inr (_, starts_again e r)
  | inr r ↦ inr (_, ends e r)
]
next_step s ended e h = inl refl
next_step s failed e h = inl refl
