-- ===== src/Cli/Daemon/Restart/Started.antt =====
-- What `offs restart` starts (src/offs/commands/start_stop.c).
use offs.Base.{
  ℕ, zero, suc, ◌≤◌, true, false, Option, none, some, List, [], ◌∷◌, any, all, length, Bytes, codes,
  str_eq, ◌≡◌, refl, ap, ◌∙◌, arith, Bool-cases, inl, inr,
}
use offs.Cli.Host.{spawned, probed, slept, asked_running, Host, Trace}
use offs.Cli.Daemon.{
  cmd_stop, wait_stopped, cmd_start, probe_loop, spawn_and_probe, daemon_is_running, sleep,
  probe_socket_path,
}
use offs.Cli.Daemon.Restart.{
  Manager, cmdline_size, is_service_managed, start_argv, strip_foreground, start_again, cmd_restart,
}
use offs.Cli.Daemon.Restart.Preserved.{join_words, is_word, start_argv-preserved}

-- The arguments of the newest start of a daemon.
abbrev pub newest_start : Trace → Option (List Bytes)
newest_start [] = none
newest_start (spawned argv alive ∷ t) = some argv
newest_start (_ ∷ t) = newest_start t

-- The second arguments are the first without each `--foreground`, in their order.
pub data IsWithout : List Bytes → List Bytes → Type 0 where
  finish : IsWithout [] []
  drops :
      {arg : Bytes} {args kept : List Bytes}
      → str_eq arg (codes "--foreground") ≡ true
      → IsWithout args kept
      → IsWithout (arg ∷ args) kept
  keeps :
      {arg : Bytes} {args kept : List Bytes}
      → str_eq arg (codes "--foreground") ≡ false
      → IsWithout args kept
      → IsWithout (arg ∷ args) (arg ∷ kept)

strip_foreground-IsWithout : (args : List Bytes) → IsWithout args (strip_foreground args)
unfolding strip_foreground
strip_foreground-IsWithout [] = finish
strip_foreground-IsWithout (arg ∷ args) = elim (Bool-cases (str_eq arg (codes "--foreground"))) [
  | inl e ↦ rw e (drops e (strip_foreground-IsWithout args))
  | inr e ↦ rw e (keeps e (strip_foreground-IsWithout args))
]

-- No option of the daemon is `--help`, which would print the usage.
IsWithout-helpless :
    {args kept : List Bytes}
    → IsWithout args kept
    → any (λ arg. str_eq arg (codes "--help")) args ≡ false
    → any (λ arg. str_eq arg (codes "--help")) kept ≡ false
IsWithout-helpless finish h = refl
IsWithout-helpless (drops e w) h = IsWithout-helpless w (ground arith)
IsWithout-helpless (keeps e w) h = let rest = IsWithout-helpless w (ground arith) in ground arith

module _ (H : Host) where
  newest_start-probe_loop :
      (rounds : ℕ) (path : Bytes) (t : Trace)
      → newest_start (probe_loop H rounds path t).1 ≡ newest_start t
  unfolding probe_loop sleep
  newest_start-probe_loop zero path t = refl
  newest_start-probe_loop (suc rounds) path t = elim (Bool-cases (H.probe t path)) [
    | inl e ↦ rw e refl
    | inr e ↦ rw e (newest_start-probe_loop rounds path (slept ∷ probed path (H.probe t path) ∷ t))
  ]

  newest_start-spawn_and_probe :
      (argv : List Bytes) (t : Trace) → newest_start (spawn_and_probe H argv t).1 ≡ some argv
  unfolding spawn_and_probe
  newest_start-spawn_and_probe argv t = elim (Bool-cases (H.spawn t argv)) [
    | inl e ↦ rw e (newest_start-probe_loop 30 (probe_socket_path argv) (spawned argv true ∷ t))
    | inr e ↦ rw e refl
  ]

  newest_start-cmd_start :
      (argv : List Bytes) (t : Trace)
      → any (λ arg. str_eq arg (codes "--help")) argv ≡ false
      → H.running t ≡ false
      → newest_start (cmd_start H argv t).1 ≡ some argv
  unfolding cmd_start daemon_is_running
  newest_start-cmd_start argv t helpless down =
      rw (helpless, down) (newest_start-spawn_and_probe argv (asked_running false ∷ t))

  -- If the daemon is not run by the service manager, the command line of its process, as the kernel
  -- shows it, is of words that are not empty, has no `--help` and fits the buffer, the stop succeeds and
  -- the daemon is down behind the wait: `offs restart` without arguments starts it with exactly the
  -- arguments that it had, in their order, less each `--foreground`.
  pub cmd_restart_preserves :
      (m : Manager) (path : Bytes) (args : List Bytes) (t : Trace)
      → is_service_managed m ≡ false
      → m.cmdline ≡ some (join_words (path ∷ args))
      → all is_word (path ∷ args) ≡ true
      → length (join_words (path ∷ args)) ≤ cmdline_size
      → any (λ arg. str_eq arg (codes "--help")) args ≡ false
      → (cmd_stop H t).0 ≡ 0
      → H.running (wait_stopped H 10000 (cmd_stop H t).1).1 ≡ false
      → (argv : List Bytes) × IsWithout args argv
        × (newest_start (cmd_restart H m [] t).1 ≡ some argv)
  unfolding cmd_restart start_again
  cmd_restart_preserves m path args t unmanaged shown words fits helpless stops down =
      let kept = strip_foreground-IsWithout args in
      let same : start_argv [] m.cmdline ≡ strip_foreground args =
        ap (start_argv []) shown ∙ start_argv-preserved path args words fits in
      (
        strip_foreground args,
        kept,
        rw (unmanaged, stops, same)
            (newest_start-cmd_start (strip_foreground args) _ (IsWithout-helpless kept helpless)
              down),
      )
