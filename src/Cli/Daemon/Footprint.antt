-- ===== src/Cli/Daemon/Footprint.antt =====
-- Starting, stopping and waiting for the daemon change only what daemon events change: any reading
-- of the trace that passes over those events is kept.
use offs.Base.{
  ℕ, zero, suc, ◌+◌, ◌/◌, Bool, true, false, List, ◌∷◌, any, Bytes, codes, str_eq, ◌≡◌, ◌∙◌, refl,
  inl, inr, Bool-cases,
}
use offs.Cli.Host.{Event, asked_running, signalled, slept, spawned, probed, Host, Trace}
use offs.Cli.Daemon.{
  daemon_is_running, sleep, wait_loop, wait_stopped, cmd_stop, probe_loop, probe_socket_path,
  spawn_and_probe, cmd_start,
}

abbrev pub is_daemon_event : Event → Bool
is_daemon_event (asked_running _) = true
is_daemon_event (signalled _) = true
is_daemon_event slept = true
is_daemon_event (spawned _ _) = true
is_daemon_event (probed _ _) = true
is_daemon_event _ = false

module _ (H : Host) {A : Type 0} (v : Trace → A)
    (passes : (e : Event) (t : Trace) → is_daemon_event e ≡ true → v (e ∷ t) ≡ v t) where
  pub keeps-daemon_is_running : (t : Trace) → v (daemon_is_running H t).1 ≡ v t
  unfolding daemon_is_running
  keeps-daemon_is_running t = passes _ t refl

  keeps-wait_loop : (rounds : ℕ) (t : Trace) → v (wait_loop H rounds t).1 ≡ v t
  unfolding wait_loop daemon_is_running sleep
  keeps-wait_loop zero t = passes _ t refl
  keeps-wait_loop (suc rounds) t = elim (Bool-cases (H.running t)) [
    | inl up ↦ rw up (
        keeps-wait_loop rounds (slept ∷ asked_running (H.running t) ∷ t)
        ∙ passes slept _ refl
        ∙ passes (asked_running (H.running t)) t refl)
    | inr down ↦ rw down (passes (asked_running (H.running t)) t refl)
  ]

  pub keeps-wait_stopped : (timeout_ms : ℕ) (t : Trace) → v (wait_stopped H timeout_ms t).1 ≡ v t
  unfolding wait_stopped
  keeps-wait_stopped timeout_ms t =
      keeps-daemon_is_running (wait_loop H ((timeout_ms + 99) / 100) t).1
      ∙ keeps-wait_loop ((timeout_ms + 99) / 100) t

  pub keeps-cmd_stop : (t : Trace) → v (cmd_stop H t).1 ≡ v t
  unfolding cmd_stop daemon_is_running
  keeps-cmd_stop t = elim (Bool-cases (H.running t)) [
    | inl up ↦ rw up (passes _ _ refl ∙ passes (asked_running true) t refl)
    | inr down ↦ rw down (passes (asked_running false) t refl)
  ]

  keeps-probe_loop :
      (rounds : ℕ) (path : Bytes) (t : Trace) → v (probe_loop H rounds path t).1 ≡ v t
  unfolding probe_loop sleep
  keeps-probe_loop zero path t = refl
  keeps-probe_loop (suc rounds) path t = elim (Bool-cases (H.probe t path)) [
    | inl up ↦ rw up (passes (probed path (H.probe t path)) t refl)
    | inr down ↦ rw down (
        keeps-probe_loop rounds path (slept ∷ probed path (H.probe t path) ∷ t)
        ∙ passes slept _ refl
        ∙ passes (probed path (H.probe t path)) t refl)
  ]

  keeps-spawn_and_probe : (argv : List Bytes) (t : Trace) → v (spawn_and_probe H argv t).1 ≡ v t
  unfolding spawn_and_probe
  keeps-spawn_and_probe argv t = elim (Bool-cases (H.spawn t argv)) [
    | inl alive ↦ rw alive (
        keeps-probe_loop 30 (probe_socket_path argv) (spawned argv true ∷ t)
        ∙ passes (spawned argv true) t refl)
    | inr gone ↦ rw gone (passes (spawned argv false) t refl)
  ]

  pub keeps-cmd_start : (argv : List Bytes) (t : Trace) → v (cmd_start H argv t).1 ≡ v t
  unfolding cmd_start daemon_is_running
  keeps-cmd_start argv t = elim (Bool-cases (any (λ arg. str_eq arg (codes "--help")) argv)) [
    | inl asked ↦ rw asked
    | inr plain ↦ rw plain (elim (Bool-cases (H.running t)) [
      | inl up ↦ rw up (passes (asked_running true) t refl)
      | inr down ↦ rw down (
          keeps-spawn_and_probe argv (asked_running false ∷ t)
          ∙ passes (asked_running false) t refl)
    ])
  ]
