-- ===== src/Offsd/Shutdown/Order.antt =====
-- What `_shutdown` (src/offsd/main.c) leaves, and in which order it destroys.
use offs.Base.{
  Bool, true, false, not, ◌||◌, Option, none, some, ◌∷◌, Bytes, Bool-cases, inl, inr, ◌≡◌, refl,
  sym, ◌&&◌, arith,
}
use offs.Offsd.Life.{
  Part, members, pool, timer, authority, block_cache, ofd_cache, tuple_cache, http_server, network,
  ws_transport, wt_transport, wt_h3_transport, unix_transport, update_actor, Server, get, set,
  pool_stopped, destroyed, saved_peers, closed_connections, mdns_stopped, peer_book_stopped,
  removed_pid, Trace, live, safe, unused, in_order, destroy_if, stop_if, no_server,
}
use offs.Offsd.Life.Steps.{
  Leaves, leaves, live-Leaves, safe-Leaves, is_quiet, call-Leaves, destroy-Leaves,
  destroy_if-Leaves, stop_if-Leaves,
}
use offs.Offsd.Shutdown.{remove_pid_file, stop_network, quiesce, destroy_all, shutdown}

-- The calls were allowed, leave this alive, and destroyed parts in order, or not.
pub data Settles : Bool → Server → Trace → Type 0 where
  settles : {o : Bool} {s : Server} {t : Trace} → Leaves s t → in_order t ≡ o → Settles o s t

pub Leaves-Settles : {o : Bool} {s : Server} {t : Trace} → Settles o s t → Leaves s t
Leaves-Settles (settles so_far _) = so_far

pub in_order-Settles : {o : Bool} {s : Server} {t : Trace} → Settles o s t → in_order t ≡ o
in_order-Settles (settles _ ordered) = ordered

destroy-Settles :
    (p : Part) (b : Bool) {o : Bool} {s : Server} {t : Trace}
    → b ≡ get p s
    → is_quiet p s ≡ true
    → unused p s ≡ true
    → Settles o s t
    → Settles o (set p false s) (destroyed p b ∷ t)
unfolding in_order
destroy-Settles p b h q free (settles so_far ordered) =
    settles (destroy-Leaves p b h q so_far) (rw (live-Leaves so_far) (rw free ordered))

destroy_if-in_order :
    (p : Part) (from : Server) {o : Bool} {s : Server} {t : Trace}
    → unused p s ≡ true
    → Leaves s t
    → in_order t ≡ o
    → in_order (destroy_if p from t) ≡ o
unfolding in_order
destroy_if-in_order p from {s} {t} free so_far ordered = elim (Bool-cases (get p from)) [
  | inl e ↦ rw e (rw (live-Leaves so_far) (rw free ordered))
  | inr e ↦ rw e ordered
]

destroy_if-Settles :
    (p : Part) (from : Server) {o : Bool} {s : Server} {t : Trace}
    → get p from ≡ get p s
    → is_quiet p s ≡ true
    → unused p s ≡ true
    → Settles o s t
    → Settles o (set p false s) (destroy_if p from t)
destroy_if-Settles p from h q free (settles so_far ordered) =
    settles (destroy_if-Leaves p from h q so_far) (destroy_if-in_order p from free so_far ordered)

stop_if-Settles :
    (p : Part) (from : Server) {o : Bool} {s : Server} {t : Trace}
    → get p from ≡ get p s
    → Settles o s t
    → Settles o s (stop_if p from t)
unfolding in_order
stop_if-Settles p from {s} {t} h (settles so_far ordered) =
    settles (stop_if-Leaves p from h so_far)
      (elim (Bool-cases (get p from)) [ inl e ↦ rw e ordered | inr e ↦ rw e ordered ])

stop_network-Settles :
    (s : Server) {o : Bool} {r : Server} {t : Trace}
    → s.network ≡ r.network
    → not r.network || r.authority ≡ true
    → Settles o r t
    → Settles o r (stop_network s t)
unfolding in_order
stop_network-Settles s same rules (settles so_far ordered) = elim (Bool-cases s.network) [
  | inl e ↦ rw e (
      settles
        (call-Leaves closed_connections (ground arith) (
          call-Leaves saved_peers (ground arith) (
            call-Leaves peer_book_stopped (ground arith)
              (call-Leaves mdns_stopped (ground arith) so_far))))
        ordered)
  | inr e ↦ rw e (settles so_far ordered)
]

pool_stopped-Settles :
    {o : Bool} {s : Server} {t : Trace}
    → s.pool ≡ true
    → s.running ≡ true
    → Settles o s t
    → Settles o (record s { running = false }) (pool_stopped ∷ t)
unfolding in_order
pool_stopped-Settles has_pool runs (settles so_far ordered) =
    settles (call-Leaves pool_stopped (rw has_pool runs) so_far) ordered

quiesce-Settles :
    (s : Server) {o : Bool} {t : Trace}
    → s.pool ≡ true
    → s.running ≡ true
    → not s.network || s.authority ≡ true
    → Settles o s t
    → Settles o (record s { running = false }) (quiesce s t)
unfolding quiesce
quiesce-Settles s has_pool runs rules so_far = pool_stopped-Settles has_pool runs (
    stop_if-Settles http_server s refl (
      stop_network-Settles s refl rules (
        stop_if-Settles wt_h3_transport s refl (
          stop_if-Settles wt_transport s refl
            (stop_if-Settles ws_transport s refl (stop_if-Settles unix_transport s refl so_far))))))

destroy_all-Settles :
    (s : Server) {o : Bool} {t : Trace}
    → s.members ≡ true
    → Settles o (record s { running = false }) t
    → Settles o no_server (destroy_all s t)
unfolding destroy_all
destroy_all-Settles s has_members so_far =
    destroy-Settles members true (sym has_members) refl refl (
      destroy_if-Settles authority s refl refl refl (
        destroy_if-Settles pool s refl refl refl (
          destroy_if-Settles timer s refl refl refl (
            destroy_if-Settles update_actor s refl refl refl (
              destroy_if-Settles block_cache s refl refl refl (
                destroy_if-Settles ofd_cache s refl refl refl (
                  destroy_if-Settles tuple_cache s refl refl refl (
                    destroy_if-Settles network s refl refl refl (
                      destroy_if-Settles http_server s refl refl refl (
                        destroy_if-Settles wt_h3_transport s refl refl refl (
                          destroy_if-Settles wt_transport s refl refl refl (
                            destroy_if-Settles ws_transport s refl refl refl (
                              destroy_if-Settles unix_transport s refl refl refl so_far)))))))))))))

remove_pid_file-Settles :
    (pid_file : Option Bytes) {o : Bool} {s : Server} {t : Trace}
    → Settles o s t
    → Settles o s (remove_pid_file pid_file t)
unfolding remove_pid_file in_order
remove_pid_file-Settles none so_far = so_far
remove_pid_file-Settles (some path) (settles so_far ordered) =
    settles (call-Leaves removed_pid refl so_far) ordered

pub shutdown-Settles :
    {o : Bool} {s : Server} (pid_file : Option Bytes) {t : Trace}
    → s.pool ≡ true
    → s.running ≡ true
    → s.members ≡ true
    → not s.network || s.authority ≡ true
    → Settles o s t
    → Settles o no_server (shutdown s pid_file t)
unfolding shutdown
shutdown-Settles {s} pid_file has_pool runs has_members rules so_far =
    remove_pid_file-Settles pid_file
      (destroy_all-Settles s has_members (quiesce-Settles s has_pool runs rules so_far))

-- A shutdown of a server with a running pool, and with an authority where there is a network, destroys
-- each live part once and leaves nothing alive; each of its calls is allowed, so it uses live parts
-- only and the pool has stopped before it is destroyed; and no part is destroyed while another lives
-- that was given it, itself or through the peer node, the configuration included.
pub shutdown-live :
    (s : Server) (pid_file : Option Bytes) (t : Trace)
    → live t ≡ s
    → safe t ≡ true
    → s.members && s.pool && s.running ≡ true
    → not s.network || s.authority ≡ true
    → (live (shutdown s pid_file t) ≡ no_server)
      × (safe (shutdown s pid_file t) ≡ true)
      × (in_order (shutdown s pid_file t) ≡ in_order t)
shutdown-live s pid_file t alive fine up rules =
    let after =
      shutdown-Settles pid_file (ground arith) (ground arith) (ground arith) rules
        (settles (leaves alive fine) refl) in
    (live-Leaves (Leaves-Settles after), safe-Leaves (Leaves-Settles after), in_order-Settles after)
