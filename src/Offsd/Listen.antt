-- ===== src/Offsd/Listen.antt =====
-- `_start_listening` (src/offsd/main.c). Printed text is left out.
use offs.Base.{
  ℕ, Bool, true, false, ◌&&◌, ◌≡◌, Option, none, some, ◌∷◌, drop, ltb, refl, if◌then◌else◌, Bytes,
  codes, has_prefix,
}
use offs.Offsd.Args.{OffsdArgs}
use offs.Offsd.Life.{
  http_server, ws_transport, wt_transport, wt_h3_transport, unix_transport, Server, quic_started,
  mdns_started, relay_connected, loaded_peers, peer_book_started, connections_started, Trace,
  start_if,
}
use offs.Offsd.Life.Steps.{Leaves, call-Leaves, start_if-Leaves}

-- The network's calls, of the library, with their results.
pub record Net : Type 0 where
  -- network->quic_listener and network->peer_book are not NULL
  pub quic_listener : Bool
  pub peer_book : Bool
  pub quic_start : Bool
  pub mdns_start : Bool
  -- endpoint_parse with a host buffer of 256 bytes
  pub endpoint_parse : Bytes → Option (Bytes × ℕ)
  pub connect_relay : Bytes → ℕ → Bool

-- `offs://` is skipped.
unfoldable pub relay_address : Bytes → Bytes
relay_address url = if has_prefix (codes "offs://") url then drop 7 url else url

module _ (N : Net) where
  -- The QUIC listener and the mDNS responder.
  unfoldable pub listen_quic : Bool → Trace → Trace
  listen_quic true t = mdns_started N.mdns_start ∷ quic_started N.quic_start ∷ t
  listen_quic false t = t

  -- The relay at the parsed address.
  unfoldable pub connect_to : Option (Bytes × ℕ) → Trace → Trace
  connect_to none t = t
  connect_to (some (host, port)) t = relay_connected host port (N.connect_relay host port) ∷ t

  -- The relay, where a URL is given and there is a network.
  unfoldable pub connect_relay : Bool → Option Bytes → Trace → Trace
  connect_relay true (some url) t = connect_to (N.endpoint_parse (relay_address url)) t
  connect_relay true none t = t
  connect_relay false relay_url t = t

  unfoldable pub start_peer_book : Bool → Trace → Trace
  start_peer_book true t = peer_book_started ∷ t
  start_peer_book false t = t

  unfoldable pub start_listening : Server → OffsdArgs → Trace → Trace
  start_listening s a t =
      let quic =
        listen_quic (ltb 0 a.quic_port && (s.network && N.quic_listener))
          (start_if http_server s t) in
      let transports =
        start_if unix_transport s
          (start_if wt_h3_transport s (start_if wt_transport s (start_if ws_transport s quic))) in
      let relayed = connect_relay s.network a.relay_url transports in
      connections_started ∷ start_peer_book N.peer_book (loaded_peers ∷ relayed)

  listen_quic-Leaves :
      (b : Bool) {s : Server} {t : Trace}
      → s.network ≡ true
      → Leaves s t
      → Leaves s (listen_quic b t)
  unfolding listen_quic
  listen_quic-Leaves true there so_far =
      call-Leaves (mdns_started N.mdns_start) there
        (call-Leaves (quic_started N.quic_start) there so_far)
  listen_quic-Leaves false there so_far = so_far

  connect_to-Leaves :
      (address : Option (Bytes × ℕ)) {s : Server} {t : Trace}
      → s.network ≡ true
      → Leaves s t
      → Leaves s (connect_to address t)
  unfolding connect_to
  connect_to-Leaves none there so_far = so_far
  connect_to-Leaves (some (host, port)) there so_far =
      call-Leaves (relay_connected host port (N.connect_relay host port)) there so_far

  connect_relay-Leaves :
      (b : Bool) (relay_url : Option Bytes) {s : Server} {t : Trace}
      → s.network ≡ true
      → Leaves s t
      → Leaves s (connect_relay b relay_url t)
  unfolding connect_relay
  connect_relay-Leaves true (some url) there so_far =
      connect_to-Leaves (N.endpoint_parse (relay_address url)) there so_far
  connect_relay-Leaves true none there so_far = so_far
  connect_relay-Leaves false relay_url there so_far = so_far

  start_peer_book-Leaves :
      (b : Bool) {s : Server} {t : Trace}
      → s.network ≡ true
      → Leaves s t
      → Leaves s (start_peer_book b t)
  unfolding start_peer_book
  start_peer_book-Leaves true there so_far = call-Leaves peer_book_started there so_far
  start_peer_book-Leaves false there so_far = so_far

  -- What is started is alive, and what is alive stays, where there are an authority and a network.
  pub start_listening-Leaves :
      {s : Server} (a : OffsdArgs) {t : Trace}
      → s.authority ≡ true
      → s.network ≡ true
      → Leaves s t
      → Leaves s (start_listening s a t)
  unfolding start_listening
  start_listening-Leaves {s} a rules there so_far = call-Leaves connections_started there (
      start_peer_book-Leaves N.peer_book there (
        call-Leaves loaded_peers (rw (rules, there) refl) (
          connect_relay-Leaves s.network a.relay_url there (
            start_if-Leaves unix_transport s refl (
              start_if-Leaves wt_h3_transport s refl (
                start_if-Leaves wt_transport s refl (
                  start_if-Leaves ws_transport s refl (
                    listen_quic-Leaves (ltb 0 a.quic_port && (s.network && N.quic_listener)) there
                      (start_if-Leaves http_server s refl so_far)))))))))
