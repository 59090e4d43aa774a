-- ===== src/Offsd/Startup/Transports.antt =====
-- Who owns what at the end of `_startup` (src/offsd/main.c): the stages from the network on.
use offs.Base.{is_none, Bool, true, false, ◌∷◌, ◌==◌, ◌≡◌, refl, arith}
use offs.Offsd.Args.{OffsdArgs}
use offs.Offsd.Life.{
  Part, network, ws_transport, wt_transport, wt_h3_transport, unix_transport, update_actor, Server,
  get, set, created, routed, Trace,
}
use offs.Offsd.Life.Steps.{Leaves, create_failed-Leaves, live-Leaves, safe-Leaves, call-Leaves}
use offs.Offsd.Startup.{Config, Outside, auth_copy}
use offs.Offsd.Startup.Lists.{
  release_authority, release_network, release_ws, release_wt, release_transports,
}
use offs.Offsd.Startup.Stages.{
  Stage, failed, either, made, start_updates, start_unix, start_wt_h3, start_wt, start_ws,
  register_routes, start_network, route,
}
use offs.Offsd.Startup.Release.{
  is_ruled, is_serving, ruled-up, Clean, clean, Owned, lacks_updates, lacks_unix, lacks_wt_h3,
  lacks_wt, lacks_ws, lacks_network, release_authority-Clean, release_network-Clean,
  release_ws-Clean, release_wt-Clean, release_transports-Clean,
}

pub either-Clean :
    {may_leak : Bool} (b : Bool) (first second : Stage) (c : Config) (a : OffsdArgs) {s : Server}
    {t : Trace}
    → Clean may_leak (first c a s t)
    → Clean may_leak (second c a s t)
    → Clean may_leak (either b first second c a s t)
unfolding either
either-Clean true first second c a one other = one
either-Clean false first second c a one other = other

-- A part that is made, or whose failure releases the parts before it.
pub made-Clean :
    {may_leak : Bool} (ok : Bool) (part : Part) (release : Server → Trace → Trace) (next : Stage)
    (c : Config) (a : OffsdArgs) {s : Server} {t : Trace}
    → get part s ≡ false
    → Leaves s t
    → (Leaves (set part true s) (created part true ∷ t)
        → Clean may_leak (next c a (set part true s) (created part true ∷ t)))
    → (Leaves s (created part false ∷ t)
        → Clean may_leak (failed (release s (created part false ∷ t))))
    → Clean may_leak (made ok part release next c a s t)
unfolding made
made-Clean true part release next c a lacks so_far on_success on_failure =
    on_success (call-Leaves (created part true) (rw lacks refl) so_far)
made-Clean false part release next c a lacks so_far on_success on_failure =
    on_failure (create_failed-Leaves part lacks so_far)

module _ (O : Outside) where
  start_updates-Clean :
      (c : Config) (a : OffsdArgs) {s : Server} {t : Trace}
      → is_serving s ≡ true
      → lacks_updates s ≡ true
      → Leaves s t
      → Clean false (start_updates O c a s t)
  unfolding start_updates Owned
  start_updates-Clean c a {s} {t} up lacks so_far =
      let after = call-Leaves (created update_actor (O.creates update_actor)) lacks so_far in
      clean (live-Leaves after, safe-Leaves after, up)

  start_unix-Clean :
      (c : Config) (a : OffsdArgs) {s : Server} {t : Trace}
      → is_serving s ≡ true
      → lacks_unix s ≡ true
      → Leaves s t
      → Clean false (start_unix O c a s t)
  unfolding start_unix
  start_unix-Clean c a {s} {t} up lacks so_far =
      either-Clean (is_none a.unix_path) _ _ c a (start_updates-Clean c a up (ground arith) so_far)
        (made-Clean (O.creates unix_transport) unix_transport release_transports (start_updates O) c
          a (ground arith) so_far (λ after. start_updates-Clean c a up (ground arith) after)
          (λ after. release_transports-Clean up after lacks))

  start_wt_h3-Clean :
      (c : Config) (a : OffsdArgs) {s : Server} {t : Trace}
      → is_serving s ≡ true
      → lacks_wt_h3 s ≡ true
      → Leaves s t
      → Clean false (start_wt_h3 O c a s t)
  unfolding start_wt_h3
  start_wt_h3-Clean c a {s} {t} up lacks so_far =
      either-Clean (a.wt_h3_port == 0) _ _ c a (start_unix-Clean c a up (ground arith) so_far) (
        made-Clean (O.creates wt_h3_transport) wt_h3_transport release_wt (start_unix O) c a
          (ground arith) so_far (λ after. start_unix-Clean c a up (ground arith) after)
          (λ after. release_wt-Clean up after lacks))

  start_wt-Clean :
      (c : Config) (a : OffsdArgs) {s : Server} {t : Trace}
      → is_serving s ≡ true
      → lacks_wt s ≡ true
      → Leaves s t
      → Clean false (start_wt O c a s t)
  unfolding start_wt
  start_wt-Clean c a {s} {t} up lacks so_far =
      either-Clean (a.wt_port == 0) _ _ c a (start_wt_h3-Clean c a up (ground arith) so_far) (
        made-Clean (O.creates wt_transport) wt_transport release_ws (start_wt_h3 O) c a
          (ground arith) so_far (λ after. start_wt_h3-Clean c a up (ground arith) after)
          (λ after. release_ws-Clean up after lacks))

  start_ws-Clean :
      (c : Config) (a : OffsdArgs) {s : Server} {t : Trace}
      → is_serving s ≡ true
      → lacks_ws s ≡ true
      → Leaves s t
      → Clean false (start_ws O c a s t)
  unfolding start_ws
  start_ws-Clean c a {s} {t} up lacks so_far =
      either-Clean (a.ws_port == 0) _ _ c a (start_wt-Clean c a up (ground arith) so_far) (
        made-Clean (O.creates ws_transport) ws_transport release_network (start_wt O) c a
          (ground arith) so_far (λ after. start_wt-Clean c a up (ground arith) after)
          (λ after. release_network-Clean up after lacks))

  route-Leaves :
      (served : Bool) {s : Server} {t : Trace}
      → served ≡ s.http_server
      → s.network ≡ true
      → Leaves s t
      → Leaves s (route O served t)
  unfolding route
  route-Leaves true served there so_far =
      call-Leaves (routed (O.copies auth_copy)) (ground arith) so_far
  route-Leaves false served there so_far = so_far

  register_routes-Clean :
      (c : Config) (a : OffsdArgs) {s : Server} {t : Trace}
      → is_serving s ≡ true
      → lacks_ws s ≡ true
      → Leaves s t
      → Clean false (register_routes O c a s t)
  unfolding register_routes
  register_routes-Clean c a {s} up lacks so_far =
      start_ws-Clean c a up lacks (route-Leaves s.http_server refl (ground arith) so_far)

  pub start_network-Clean :
      (c : Config) (a : OffsdArgs) {s : Server} {t : Trace}
      → is_ruled s ≡ true
      → lacks_network s ≡ true
      → Leaves s t
      → Clean false (start_network O c a s t)
  unfolding start_network
  start_network-Clean c a {s} {t} up lacks so_far =
      made-Clean (O.creates network) network release_authority (register_routes O) c a
        (ground arith) so_far (λ after. register_routes-Clean c a up (ground arith) after)
        (λ after. release_authority-Clean (ruled-up s up) after lacks)
