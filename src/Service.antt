-- ===== src/Service.antt =====
-- The services (src/Service/service.h) on systemd and on launchd (src/Service/service_linux.c,
-- src/Service/service_macos.c). `system`, `realpath` and the calls on files are parameters.
pub mod Dispatcher
pub mod Linux
pub mod Macos
pub mod Waiting
pub mod Windows
use offs.Base.{ℕ, zero, suc, Bool, true, false, not, List, ◌∷◌, Bytes}

-- service_result_e
pub data ServiceResult : Type 0 where
  result_ok result_error result_timeout not_installed : ServiceResult

-- Commands run, pauses in milliseconds, and what is done to the property list, latest first.
pub data Call : Type 0 where
  ran : Bytes → Call
  paused : ℕ → Call
  wrote_plist : Bytes → Call
  removed_plist : Call

abbrev pub Calls : Type 0
Calls = List Call

-- By whether the exit status is 0.
unfoldable pub of_status : Bool → ServiceResult
of_status true = result_ok
of_status false = result_error

-- Whether the answer is the one awaited: `running == 0` or `running != 0`.
unfoldable pub is_awaited : Bool → Bool → Bool
is_awaited true answer = answer
is_awaited false answer = not answer

-- `system` by the calls before: whether the command's exit status is 0.
module _ (system : Calls → Bytes → Bool) where
  unfoldable pub run_command : Bytes → Calls → ServiceResult × Calls
  run_command command calls = (of_status (system calls command), ran command ∷ calls)

  -- The rounds of a wait: a pause, and the command, until its exit status is the one awaited.
  unfoldable pub wait_rounds : Bool → Bytes → ℕ → ℕ → Calls → ServiceResult × Calls
  wait_rounds awaited command interval_ms zero calls = (result_timeout, calls)
  wait_rounds awaited command interval_ms (suc rounds) calls =
      let calls' = paused interval_ms ∷ calls in
      elim (is_awaited awaited (system calls' command)) [
        | true ↦ (result_ok, ran command ∷ calls')
        | false ↦ wait_rounds awaited command interval_ms rounds (ran command ∷ calls')
      ]
