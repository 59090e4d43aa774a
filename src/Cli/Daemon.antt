-- ===== src/Cli/Daemon.antt =====
-- `offs start` and `offs stop` on POSIX, and the two functions that the cache move uses
-- (src/offs/commands/start_stop.c). fork succeeds.
pub mod Footprint
pub mod Restart
use offs.Base.{
  ℕ, zero, suc, ◌+◌, ◌/◌, Bool, true, false, not, List, [], ◌∷◌, Option, none, some, if◌then◌else◌,
  any, Bytes, codes, str_eq,
}
use offs.Cli.Host.{
  Event, asked_running, signalled, slept, spawned, probed, Host, M, ◌>>=◌, ◌>>◌, return, ask, Trace,
}

-- OFFS_LOCAL_SOCKET_PATH on POSIX (src/Service/local_socket.h)
unfoldable pub local_socket_path : Bytes
local_socket_path = codes "/var/run/offs.sock"

-- _probe_socket_path
unfoldable pub probe_socket_path : List Bytes → Bytes
probe_socket_path [] = local_socket_path
probe_socket_path (arg ∷ []) = local_socket_path
probe_socket_path (arg ∷ value ∷ argv) =
    if str_eq arg (codes "--unix") then value else probe_socket_path (value ∷ argv)

module _ (H : Host) where
  -- _is_daemon_running, cli_daemon_is_running
  unfoldable pub daemon_is_running : M Bool
  daemon_is_running = ask H.running asked_running

  sleep : M (Unit {0})
  sleep t = (tt, slept ∷ t)

  -- The rounds of the loop in cli_daemon_wait_stopped, at most `rounds` of them.
  wait_loop : ℕ → M (Unit {0})
  wait_loop zero t = (tt, (daemon_is_running t).1)
  wait_loop (suc rounds) t =
      let (up, t') = daemon_is_running t in
      elim up [ true ↦ wait_loop rounds (sleep t').1 | false ↦ (tt, t') ]

  -- cli_daemon_wait_stopped: whether the result is 0. A round waits 100 ms.
  unfoldable pub wait_stopped : ℕ → M Bool
  unfolding wait_loop sleep
  wait_stopped timeout_ms = do
    wait_loop ((timeout_ms + 99) / 100)
    up ← daemon_is_running
    return (not up)

  stop_running : Bool → M ℕ
  stop_running false = return 1
  stop_running true = do ok ← ask H.signal signalled; return (if ok then 0 else 1)

  -- cmd_stop: the exit status
  unfoldable pub cmd_stop : M ℕ
  unfolding stop_running
  cmd_stop = do up ← daemon_is_running; stop_running up

  -- The rounds of _probe_daemon_up.
  probe_loop : ℕ → Bytes → M Bool
  probe_loop zero path t = (false, t)
  probe_loop (suc rounds) path t =
      let (up, t') = ask (λ u. H.probe u path) (probed path) t in
      elim up [ true ↦ (true, t') | false ↦ probe_loop rounds path (sleep t').1 ]

  -- The child, `waitpid`, and the probe for 3000 ms.
  spawn_and_probe : List Bytes → M ℕ
  spawn_and_probe argv = do
    alive ← ask (λ u. H.spawn u argv) (spawned argv)
    if alive
        then (do up ← probe_loop 30 (probe_socket_path argv); return (if up then 0 else 1))
        else return 1

  -- cmd_start: the exit status
  unfoldable pub cmd_start : List Bytes → M ℕ
  unfolding spawn_and_probe probe_loop sleep
  cmd_start argv =
      if any (λ arg. str_eq arg (codes "--help")) argv
      then return 0
      else do up ← daemon_is_running; if up then return 1 else spawn_and_probe argv
