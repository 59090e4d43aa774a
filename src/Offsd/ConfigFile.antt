-- ===== src/Offsd/ConfigFile.antt =====
-- `_parse_config_file` (src/offsd/main.c), over the parsed file. Allocation succeeds.
pub mod Precedence
use offs.Base.{
  ℕ, ◌%◌, ℤ, pos, negsuc, Bool, true, false, not, ◌&&◌, ◌||◌, Option, none, some, [], ◌∷◌, ltb,
  ◌==◌, if◌then◌else◌, ◌>>=◌, Bytes, codes, uint16_of,
}
use offs.Json.{Json, section_field}
use offs.Offsd.Args.{OffsdArgs}
use offs.Offsd.Args.Flags.{parse_mode}

-- `if (… && args->field == NULL) args->field = strdup(…)`: a field that is set is kept.
abbrev pub fill : Option Bytes → Option Bytes → Option Bytes
fill (some v) value = some v
fill none value = value

-- The same for a number, where `unset` says that the field has the value which stands for unset.
abbrev pub fill_number {ℓ} : {A : Type ℓ} → Bool → A → Option A → A
fill_number false old value = old
fill_number true old none = old
fill_number true old (some n) = n

abbrev pub is_zero : ℤ → Bool
is_zero (pos n) = n == 0
is_zero (negsuc n) = false

module _ {Item : Type 0} (J : Json Item) (root : Item) where
  abbrev pub text_at : Bytes → Bytes → Option Bytes
  text_at = section_field J J.text root

  unfoldable pub fill_daemon : OffsdArgs → OffsdArgs
  fill_daemon a = record a {
    config_dir = fill a.config_dir (text_at (codes "daemon") (codes "config-dir"));
    pid_file = fill a.pid_file (text_at (codes "daemon") (codes "pid-file"));
  }

  abbrev pub port_of : Option ℤ → Option ℕ
  port_of none = none
  port_of (some z) = some (uint16_of z)

  abbrev pub port_at : Bytes → Option ℕ
  port_at section = port_of (section_field J J.int root section (codes "port"))

  -- The fields of the network section up to max-capacity-bytes.
  unfoldable pub fill_network : OffsdArgs → OffsdArgs
  fill_network a = record a {
    host = fill a.host (text_at (codes "network") (codes "host"));
    port = fill_number (a.port == 23402) a.port (port_at (codes "network"));
    relay_url = fill a.relay_url (text_at (codes "network") (codes "relay-url"));
    max_capacity_bytes =
        fill_number (a.max_capacity_bytes == 0) a.max_capacity_bytes
          (section_field J J.size root (codes "network") (codes "max-capacity-bytes"));
  }

  -- eabf-base-ttl-ms, below 64000 an error
  set_eabf : OffsdArgs → Bool → Option ℕ → Option OffsdArgs
  set_eabf a true (some ms) =
      if ltb ms 64000 then none else some (record a { eabf_base_ttl_ms = ms })
  set_eabf a _ _ = some a

  unfoldable pub fill_eabf : OffsdArgs → Option OffsdArgs
  unfolding set_eabf
  fill_eabf a =
      set_eabf a (a.eabf_base_ttl_ms == 0)
        (section_field J J.uint32 root (codes "network") (codes "eabf-base-ttl-ms"))

  check_tau : OffsdArgs → Option OffsdArgs
  check_tau a =
      if ltb 0 a.respiration_tau_min_ms
        && (ltb 0 a.respiration_tau_max_ms && ltb a.respiration_tau_max_ms a.respiration_tau_min_ms)
      then none
      else some a

  -- The two bounds, and the test behind them, where there is a network section.
  unfoldable pub fill_tau : OffsdArgs → Option OffsdArgs
  unfolding check_tau
  fill_tau a = elim (J.get root (codes "network")) [
    | none ↦ some a
    | some network ↦ check_tau (record a {
      respiration_tau_min_ms =
          fill_number (a.respiration_tau_min_ms == 0) a.respiration_tau_min_ms
            (section_field J J.uint32 root (codes "network") (codes "respiration-tau-min-ms"));
      respiration_tau_max_ms =
          fill_number (a.respiration_tau_max_ms == 0) a.respiration_tau_max_ms
            (section_field J J.uint32 root (codes "network") (codes "respiration-tau-max-ms"));
    })
  ]

  set_mode_from : OffsdArgs → Option ℕ → Option OffsdArgs
  set_mode_from a none = none
  set_mode_from a (some mode) = some (record a {
    unix_socket_mode = fill_number (a.unix_socket_mode == 0) a.unix_socket_mode (some mode);
  })

  unfoldable pub mode_from_text : OffsdArgs → Option Bytes → Option OffsdArgs
  unfolding set_mode_from
  mode_from_text a none = none
  mode_from_text a (some []) = some a
  mode_from_text a (some (c ∷ cs)) = set_mode_from a (parse_mode (c ∷ cs))

  -- unix-socket-mode: an item that is no string is an error.
  unfoldable pub fill_mode : OffsdArgs → Option OffsdArgs
  fill_mode a = elim (section_field J some root (codes "network") (codes "unix-socket-mode")) [
    | none ↦ some a
    | some item ↦ mode_from_text a (J.text item)
  ]

  -- The sections behind network, and the last field of network.
  unfoldable pub fill_rest : OffsdArgs → OffsdArgs
  fill_rest a = record a {
    bootstrap_peers = fill a.bootstrap_peers (text_at (codes "network") (codes "bootstrap-peers"));
    api_key = fill a.api_key (text_at (codes "auth") (codes "api-key"));
    unix_path = fill a.unix_path (text_at (codes "unix") (codes "socket-path"));
    cache_dir = fill a.cache_dir (text_at (codes "cache") (codes "dir"));
    worker_count =
        fill_number (is_zero a.worker_count) a.worker_count
          (section_field J J.int root (codes "workers") (codes "count"));
    metrics_server_url = fill a.metrics_server_url (text_at (codes "metrics") (codes "server-url"));
    ca_cert_path = fill a.ca_cert_path (text_at (codes "tls") (codes "ca-cert"));
    node_cert_path = fill a.node_cert_path (text_at (codes "tls") (codes "node-cert"));
    node_key_path = fill a.node_key_path (text_at (codes "tls") (codes "node-key"));
    ws_port = fill_number (a.ws_port == 0) a.ws_port (port_at (codes "websocket"));
    ws_cert_path = fill a.ws_cert_path (text_at (codes "websocket") (codes "cert"));
    ws_key_path = fill a.ws_key_path (text_at (codes "websocket") (codes "key"));
    wt_port = fill_number (a.wt_port == 0) a.wt_port (port_at (codes "webtransport"));
    wt_cert_path = fill a.wt_cert_path (text_at (codes "webtransport") (codes "cert"));
    wt_key_path = fill a.wt_key_path (text_at (codes "webtransport") (codes "key"));
    allow_secure =
        fill_number (not a.allow_secure) a.allow_secure
          (section_field J J.flag root (codes "security") (codes "allow-secure"));
  }

  -- The whole file; `none` is `return -1`.
  unfoldable pub parse_config : OffsdArgs → Option OffsdArgs
  parse_config a = do
    a1 ← fill_eabf (fill_network (fill_daemon a))
    a2 ← fill_tau a1
    a3 ← fill_mode a2
    some (fill_rest a3)
