-- ===== src/Service/Waiting.antt =====
-- What a wait for the service tells (src/Service/service_linux.c, src/Service/service_macos.c).
use offs.Base.{
  ℕ, zero, suc, ◌+◌, ◌*◌, ◌/◌, Bool, true, false, [], ◌∷◌, Bytes, ◌≡◌, ◌≤◌, refl, arith, Bool-cases,
  inl, inr, subst,
}
use offs.Service.{
  ServiceResult, result_ok, result_timeout, Calls, ran, paused, wrote_plist, removed_plist,
  is_awaited, wait_rounds,
}
use offs.Service.Linux.{status_command, service_linux_wait_for_stop, service_linux_wait_for_start}

-- The time that the calls pause for.
unfoldable pub paused_ms : Calls → ℕ
paused_ms [] = 0
paused_ms (paused ms ∷ calls) = ms + paused_ms calls
paused_ms (ran command ∷ calls) = paused_ms calls
paused_ms (wrote_plist path ∷ calls) = paused_ms calls
paused_ms (removed_plist ∷ calls) = paused_ms calls

-- Where a wait ends: the last call is the command, answered as awaited, and the pauses are within
-- the limit; or the pauses have used the limit up.
pub data Waited (system : Calls → Bytes → Bool) (awaited : Bool) (command : Bytes) (limit : ℕ)
    : ServiceResult × Calls → Type 0 where
  seen :
      (calls : Calls)
      → system calls command ≡ awaited
      → paused_ms calls ≤ limit
      → Waited system awaited command limit (result_ok, ran command ∷ calls)
  gave_up :
      (calls : Calls)
      → paused_ms calls ≡ limit
      → Waited system awaited command limit (result_timeout, calls)

is_awaited_same : (awaited answer : Bool) → is_awaited awaited answer ≡ true → answer ≡ awaited
unfolding is_awaited
is_awaited_same true answer h = h
is_awaited_same false true h = ground arith
is_awaited_same false false h = refl

wait_rounds-Waited :
    (system : Calls → Bytes → Bool) (awaited : Bool) (command : Bytes) (interval_ms rounds : ℕ)
    (calls : Calls)
    → Waited system awaited command
        (rounds * interval_ms + paused_ms calls)
        (wait_rounds system awaited command interval_ms rounds calls)
unfolding wait_rounds paused_ms
wait_rounds-Waited system awaited command interval_ms zero calls = gave_up calls (omega arith)
wait_rounds-Waited system awaited command interval_ms (suc rounds) calls =
    let calls' = paused interval_ms ∷ calls in
    elim (Bool-cases (is_awaited awaited (system calls' command))) [
      | inl h ↦ rw (h, wait_rounds) (seen calls' (is_awaited_same awaited _ h) (omega arith))
      | inr h ↦
          let left = wait_rounds system awaited command interval_ms rounds (ran command ∷ calls') in
          let rest =
            wait_rounds-Waited system awaited command interval_ms rounds (ran command ∷ calls') in
          rw (h, wait_rounds)
            (subst (λ limit. Waited system awaited command limit left) (omega arith) rest)
    ]

-- Both waits of the service on systemd, for any time: they end with `service_result_ok` directly
-- behind a `systemctl is-active` whose answer is the awaited one (inactive for the stop, active for
-- the start), with pauses of at most the whole rounds of 300 and of 500 ms in the time; or with
-- `service_result_timeout`, and then they have paused for exactly these rounds.
pub service_linux_wait-Waited :
    (system : Calls → Bytes → Bool) (timeout_ms : ℕ) (calls : Calls)
    → Waited system false status_command
        (timeout_ms / 300 * 300 + paused_ms calls)
        (service_linux_wait_for_stop system timeout_ms calls)
      × Waited system true status_command
          (timeout_ms / 500 * 500 + paused_ms calls)
          (service_linux_wait_for_start system timeout_ms calls)
unfolding service_linux_wait_for_stop service_linux_wait_for_start
service_linux_wait-Waited system timeout_ms calls = (
  wait_rounds-Waited system false status_command 300 (timeout_ms / 300) calls,
  wait_rounds-Waited system true status_command 500 (timeout_ms / 500) calls,
)
