-- ===== src/Updater/OnLinux/Known.antt =====
-- What is known of the daemon where the updater replaces its files (src/Updater/updater_main.c,
-- src/Service/service_linux.c).
use offs.Base.{
  ℕ, zero, suc, Bool, true, false, any, List, [], ◌∷◌, ◌++◌, Bytes, codes, str_eq, ◌≡◌, refl, sym,
  ap, ◌∙◌, arith, append_assoc, Bool-cases, inl, inr,
}
use offs.Service.{
  ServiceResult, result_ok, result_error, result_timeout, not_installed, Call, Calls, ran, paused,
  wrote_plist, removed_plist, is_awaited, run_command, wait_rounds,
}
use offs.Service.Linux.{
  status_command, service_linux_stop, service_linux_is_running, service_linux_wait_for_stop,
  service_linux_wait_for_start,
}
use offs.Service.Waiting.{Waited, seen, gave_up, service_linux_wait-Waited}
use offs.Updater.{
  Steps, made_pid_file, removed_pid_file, stopped, started, waited_stop, waited_start,
  asked_running, copied, made_executable, restored, logged, updater_main,
}
use offs.Updater.Order.{is_down, in_order, steps_of, updater_main-in_order}
use offs.Updater.OnLinux.{timeout_ms, calls_of, linux_service_ops}
use offs.Updater.OnLinux.Recorded.{IsRecorded, run_updater-IsRecorded}

-- The command of service_linux_start.
unfoldable pub is_start : Call → Bool
is_start (ran command) =
    str_eq command
      (codes "systemctl daemon-reload 2>/dev/null && systemctl start offs-daemon 2>/dev/null")
is_start (paused ms) = false
is_start (wrote_plist path) = false
is_start removed_plist = false

-- Calls without a start in front of others.
record Grows (before after : Calls) : Type 0 where
  more : Calls
  joins : after ≡ more ++ before
  no_start : any is_start more ≡ false

Grows-same : (calls : Calls) → Grows calls calls
Grows-same calls = record { more = []; joins = refl; no_start = refl }

Grows-call :
    (call : Call) {before after : Calls}
    → is_start call ≡ false
    → Grows before after
    → Grows before (call ∷ after)
Grows-call call h g = record {
  more = call ∷ g.more;
  joins = ap (◌∷◌ call) g.joins;
  no_start = ground (arith, g.no_start);
}

any-append_false :
    (xs ys : Calls)
    → any is_start xs ≡ false
    → any is_start ys ≡ false
    → any is_start (xs ++ ys) ≡ false
any-append_false [] ys h k = k
any-append_false (x ∷ xs) ys h k = ground (arith, any-append_false xs ys)

Grows-behind : {a b c : Calls} → Grows a b → Grows b c → Grows a c
Grows-behind {a} g h = record {
  more = h.more ++ g.more;
  joins = h.joins ∙ ap (◌++◌ h.more) g.joins ∙ sym (append_assoc h.more g.more a);
  no_start = any-append_false h.more g.more h.no_start g.no_start;
}

module _ (system : Calls → Bytes → Bool) where
  wait_rounds-Grows :
      (awaited : Bool) (command : Bytes) (interval_ms rounds : ℕ) (calls : Calls)
      → is_start (ran command) ≡ false
      → Grows calls (wait_rounds system awaited command interval_ms rounds calls).1
  unfolding wait_rounds is_start
  wait_rounds-Grows awaited command interval_ms zero calls h = Grows-same calls
  wait_rounds-Grows awaited command interval_ms (suc rounds) calls h =
      let calls' = paused interval_ms ∷ calls in
      let first : Grows calls (ran command ∷ calls') =
        Grows-call (ran command) h (Grows-call (paused interval_ms) refl (Grows-same calls)) in
      elim (Bool-cases (is_awaited awaited (system calls' command))) [
        | inl e ↦ rw (e, wait_rounds) first
        | inr e ↦
            let rest =
              wait_rounds-Grows awaited command interval_ms rounds (ran command ∷ calls') h in
            rw (e, wait_rounds) (Grows-behind first rest)
      ]

  -- The calls of a step that starts nothing.
  status_command-no_start : is_start (ran status_command) ≡ false
  unfolding is_start status_command codes str_eq
  status_command-no_start = refl

  linux_stop-Grows : (calls : Calls) → Grows calls (service_linux_stop system calls).1
  unfolding service_linux_stop run_command is_start codes str_eq
  linux_stop-Grows calls = Grows-call _ refl (Grows-same calls)

  -- A daemon that a poll has found inactive, with no start since.
  unfoldable pub IsInactive : Calls → Type 0
  IsInactive calls =
      (later : Calls) × (earlier : Calls) × (calls ≡ later ++ ran status_command ∷ earlier)
      × (any is_start later ≡ false)
      × (system earlier status_command ≡ false)

  Grows-IsInactive :
      {before after : Calls} → Grows before after → IsInactive before → IsInactive after
  unfolding IsInactive
  Grows-IsInactive g (later, earlier, e, quiet, inactive) = (
    g.more ++ later,
    earlier,
    g.joins ∙ ap (◌++◌ g.more) e ∙ sym (append_assoc g.more later _),
    any-append_false g.more later g.no_start quiet,
    inactive,
  )

  Waited-IsInactive :
      (limit : ℕ) (r : ServiceResult × Calls)
      → Waited system false status_command limit r
      → r.0 ≡ result_ok
      → IsInactive r.1
  unfolding IsInactive
  Waited-IsInactive limit _ (seen calls inactive within) e = ([], calls, refl, refl, inactive)
  Waited-IsInactive limit _ (gave_up calls over) e = absurd (ground arith)

  module _ (execl restores : Steps → Bool) where
    is_down-IsInactive :
        (steps : Steps)
        → IsRecorded (linux_service_ops system execl restores) steps
        → is_down steps ≡ true
        → IsInactive (calls_of system steps)
    unfolding is_down IsRecorded calls_of linux_service_ops timeout_ms service_linux_wait_for_stop
        service_linux_wait_for_start service_linux_is_running
    is_down-IsInactive [] r h = cc
    is_down-IsInactive (waited_stop result_ok ∷ steps) r h =
        Waited-IsInactive _ _ (service_linux_wait-Waited system 30000 (calls_of system steps)).0
          (sym r.0)
    is_down-IsInactive (waited_stop result_error ∷ steps) r h =
        Grows-IsInactive (wait_rounds-Grows false status_command 300 _ _ status_command-no_start)
          (is_down-IsInactive steps r.1 h)
    is_down-IsInactive (waited_stop result_timeout ∷ steps) r h =
        Grows-IsInactive (wait_rounds-Grows false status_command 300 _ _ status_command-no_start)
          (is_down-IsInactive steps r.1 h)
    is_down-IsInactive (waited_stop not_installed ∷ steps) r h =
        Grows-IsInactive (wait_rounds-Grows false status_command 300 _ _ status_command-no_start)
          (is_down-IsInactive steps r.1 h)
    is_down-IsInactive (waited_start r' ∷ steps) r h =
        Grows-IsInactive (wait_rounds-Grows true status_command 500 _ _ status_command-no_start)
          (is_down-IsInactive steps r h)
    is_down-IsInactive (asked_running up ∷ steps) r h =
        Grows-IsInactive (Grows-call _ status_command-no_start (Grows-same _))
          (is_down-IsInactive steps r h)
    is_down-IsInactive (stopped ∷ steps) r h =
        Grows-IsInactive (linux_stop-Grows _) (is_down-IsInactive steps r h)
    is_down-IsInactive (started ∷ steps) r h = cc
    is_down-IsInactive (made_pid_file ∷ steps) r h = is_down-IsInactive steps r h
    is_down-IsInactive (removed_pid_file ∷ steps) r h = is_down-IsInactive steps r h
    is_down-IsInactive (copied from to ∷ steps) r h = is_down-IsInactive steps r h
    is_down-IsInactive (made_executable path ∷ steps) r h = is_down-IsInactive steps r h
    is_down-IsInactive (restored command ∷ steps) r h = is_down-IsInactive steps r h
    is_down-IsInactive (logged message ∷ steps) r h = is_down-IsInactive steps r h

  -- Where a file is copied, the daemon is known to be inactive.
  unfoldable pub CopiesKnown : Steps → Type 0
  CopiesKnown [] = Unit {0}
  CopiesKnown (copied from to ∷ steps) = IsInactive (calls_of system steps) × CopiesKnown steps
  CopiesKnown (made_pid_file ∷ steps) = CopiesKnown steps
  CopiesKnown (removed_pid_file ∷ steps) = CopiesKnown steps
  CopiesKnown (stopped ∷ steps) = CopiesKnown steps
  CopiesKnown (started ∷ steps) = CopiesKnown steps
  CopiesKnown (waited_stop r ∷ steps) = CopiesKnown steps
  CopiesKnown (waited_start r ∷ steps) = CopiesKnown steps
  CopiesKnown (asked_running up ∷ steps) = CopiesKnown steps
  CopiesKnown (made_executable path ∷ steps) = CopiesKnown steps
  CopiesKnown (restored command ∷ steps) = CopiesKnown steps
  CopiesKnown (logged message ∷ steps) = CopiesKnown steps

  module _ (execl restores : Steps → Bool) where
    in_order-CopiesKnown :
        (steps : Steps)
        → IsRecorded (linux_service_ops system execl restores) steps
        → in_order steps ≡ true
        → CopiesKnown steps
    unfolding in_order IsRecorded CopiesKnown
    in_order-CopiesKnown [] r h = tt
    in_order-CopiesKnown (copied from to ∷ steps) r h = (
      is_down-IsInactive execl restores steps r (ground arith),
      in_order-CopiesKnown steps r (ground arith),
    )
    in_order-CopiesKnown (made_pid_file ∷ steps) r h = in_order-CopiesKnown steps r h
    in_order-CopiesKnown (removed_pid_file ∷ steps) r h = in_order-CopiesKnown steps r h
    in_order-CopiesKnown (stopped ∷ steps) r h = in_order-CopiesKnown steps r h
    in_order-CopiesKnown (started ∷ steps) r h = in_order-CopiesKnown steps r h
    in_order-CopiesKnown (waited_stop q ∷ steps) r h = in_order-CopiesKnown steps r.1 h
    in_order-CopiesKnown (waited_start q ∷ steps) r h = in_order-CopiesKnown steps r h
    in_order-CopiesKnown (asked_running up ∷ steps) r h = in_order-CopiesKnown steps r h
    in_order-CopiesKnown (made_executable path ∷ steps) r h = in_order-CopiesKnown steps r h
    in_order-CopiesKnown (restored command ∷ steps) r h =
        in_order-CopiesKnown steps r (ground arith)
    in_order-CopiesKnown (logged message ∷ steps) r h = in_order-CopiesKnown steps r h

-- The updater on Linux without `--finish`, with the service on systemd, whatever the shell, execl and
-- the arguments: at each file that it copies, a `systemctl is-active` of this run has found the daemon
-- inactive, and the run has not started the service since.
pub updater_main-CopiesKnown :
    (system : Calls → Bytes → Bool) (execl restores : Steps → Bool) (argv : List Bytes)
    → any (λ arg. str_eq arg (codes "--finish")) argv ≡ false
    → CopiesKnown system (steps_of (updater_main (linux_service_ops system execl restores) argv))
unfolding updater_main
updater_main-CopiesKnown system execl restores argv h =
    let S = linux_service_ops system execl restores in
    in_order-CopiesKnown system execl restores _ (run_updater-IsRecorded S _)
      (updater_main-in_order S argv h)
