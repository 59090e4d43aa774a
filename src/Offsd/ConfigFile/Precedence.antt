-- ===== src/Offsd/ConfigFile/Precedence.antt =====
-- What a configuration file changes: texts that the flags left unset, and nothing else of them.
use offs.Base.{Option, some, Bytes, codes, ◌≡◌, arith, inl, inr, Option-cases, ◌∙◌}
use offs.Json.{Json, section_field}
use offs.Offsd.Args.{OffsdArgs}
use offs.Offsd.ConfigFile.{
  fill, fill_daemon, fill_network, fill_eabf, fill_tau, fill_mode, mode_from_text, fill_rest,
  parse_config,
}

-- The settings that are texts.
pub data TextField : Type 0 where
  config_dir pid_file host relay_url bootstrap_peers api_key unix_path cache_dir : TextField
  metrics_server_url ca_cert_path node_cert_path node_key_path : TextField
  ws_cert_path ws_key_path wt_cert_path wt_key_path : TextField

abbrev pub get : TextField → OffsdArgs → Option Bytes
get config_dir a = a.config_dir
get pid_file a = a.pid_file
get host a = a.host
get relay_url a = a.relay_url
get bootstrap_peers a = a.bootstrap_peers
get api_key a = a.api_key
get unix_path a = a.unix_path
get cache_dir a = a.cache_dir
get metrics_server_url a = a.metrics_server_url
get ca_cert_path a = a.ca_cert_path
get node_cert_path a = a.node_cert_path
get node_key_path a = a.node_key_path
get ws_cert_path a = a.ws_cert_path
get ws_key_path a = a.ws_key_path
get wt_cert_path a = a.wt_cert_path
get wt_key_path a = a.wt_key_path

-- Where the file has each of them: the section and the key.
unfoldable pub location : TextField → Bytes × Bytes
location config_dir = (codes "daemon", codes "config-dir")
location pid_file = (codes "daemon", codes "pid-file")
location host = (codes "network", codes "host")
location relay_url = (codes "network", codes "relay-url")
location bootstrap_peers = (codes "network", codes "bootstrap-peers")
location api_key = (codes "auth", codes "api-key")
location unix_path = (codes "unix", codes "socket-path")
location cache_dir = (codes "cache", codes "dir")
location metrics_server_url = (codes "metrics", codes "server-url")
location ca_cert_path = (codes "tls", codes "ca-cert")
location node_cert_path = (codes "tls", codes "node-cert")
location node_key_path = (codes "tls", codes "node-key")
location ws_cert_path = (codes "websocket", codes "cert")
location ws_key_path = (codes "websocket", codes "key")
location wt_cert_path = (codes "webtransport", codes "cert")
location wt_key_path = (codes "webtransport", codes "key")

module _ {Item : Type 0} (J : Json Item) (root : Item) where
  get-fill_eabf :
      (f : TextField) (a b : OffsdArgs) → fill_eabf J root a ≡ some b → get f b ≡ get f a
  unfolding fill_eabf
  get-fill_eabf config_dir a b h = ground arith
  get-fill_eabf _ a b h = ground arith

  get-fill_tau : (f : TextField) (a b : OffsdArgs) → fill_tau J root a ≡ some b → get f b ≡ get f a
  unfolding fill_tau
  get-fill_tau config_dir a b h = ground arith
  get-fill_tau _ a b h = ground arith

  get-fill_mode :
      (f : TextField) (a b : OffsdArgs) → fill_mode J root a ≡ some b → get f b ≡ get f a
  unfolding fill_mode mode_from_text
  get-fill_mode config_dir a b h = ground arith
  get-fill_mode _ a b h = ground arith

  -- The three steps that can fail, and what they keep.
  get-checks :
      (f : TextField) (a b : OffsdArgs)
      → parse_config J root a ≡ some b
      → (c : OffsdArgs) × (b ≡ fill_rest J root c)
        × (get f c ≡ get f (fill_network J root (fill_daemon J root a)))
  unfolding parse_config
  get-checks f a b h = elim (Option-cases (fill_eabf J root start)) [
    | inl e ↦ absurd (ground arith)
    | inr (a1, e1) ↦ elim (Option-cases (fill_tau J root a1)) [
      | inl e ↦ absurd (ground arith)
      | inr (a2, e2) ↦ elim (Option-cases (fill_mode J root a2)) [
        | inl e ↦ absurd (ground arith)
        | inr (a3, e3) ↦ (
          a3,
          ground arith,
          get-fill_mode f a2 a3 e3 ∙ get-fill_tau f a1 a2 e2 ∙ get-fill_eabf f start a1 e1,
        )
      ]
    ]
  ]
    where
      start : OffsdArgs
      start = fill_network J root (fill_daemon J root a)

  get-fill_rest :
      (f : TextField) (a c : OffsdArgs)
      → get f c ≡ get f (fill_network J root (fill_daemon J root a))
      → get f (fill_rest J root c)
        ≡ fill (get f a) (section_field J J.text root (location f).0 (location f).1)
  unfolding fill_rest fill_network fill_daemon location
  get-fill_rest config_dir a c h = h
  get-fill_rest pid_file a c h = h
  get-fill_rest host a c h = h
  get-fill_rest relay_url a c h = h
  get-fill_rest _ a c h = rw h

  -- A file that is accepted leaves every text that is set as it is, and every other text gets what
  -- the file has at its place, or stays unset where the file has no string there.
  pub get-parse_config :
      (f : TextField) (a b : OffsdArgs)
      → parse_config J root a ≡ some b
      → get f b ≡ fill (get f a) (section_field J J.text root (location f).0 (location f).1)
  get-parse_config f a b h = let (c, e, k) = get-checks f a b h in rw e (get-fill_rest f a c k)
