-- ===== src/Offsd/Args.antt =====
-- The daemon's arguments: `offsd_args_t` and the flags of `_parse_args` (src/offsd/main.c).
-- Allocation succeeds, and what is printed is left out.
pub mod Flags
use offs.Base.{ℕ, ℤ, pos, Bool, true, false, Option, none, some, Bytes}

pub record OffsdArgs : Type 0 where
  pub config_path : Option Bytes
  pub host : Option Bytes
  pub port : ℕ
  pub quic_port : ℕ
  pub unix_path : Option Bytes
  pub cache_dir : Option Bytes
  pub config_dir : Option Bytes
  pub pid_file : Option Bytes
  pub worker_count : ℤ
  pub foreground : Bool
  pub log_file : Option Bytes
  pub log_level_str : Option Bytes
  pub log_structured : Bool
  pub metrics_server_url : Option Bytes
  pub ca_cert_path : Option Bytes
  pub node_cert_path : Option Bytes
  pub node_key_path : Option Bytes
  pub relay_url : Option Bytes
  pub max_capacity_bytes : ℕ
  pub eabf_base_ttl_ms : ℕ
  pub respiration_tau_min_ms : ℕ
  pub respiration_tau_max_ms : ℕ
  pub unix_socket_mode : ℕ
  pub api_key : Option Bytes
  pub bootstrap_peers : Option Bytes
  pub ws_port : ℕ
  pub wt_port : ℕ
  pub wt_h3_port : ℕ
  pub ws_cert_path : Option Bytes
  pub ws_key_path : Option Bytes
  pub wt_cert_path : Option Bytes
  pub wt_key_path : Option Bytes
  pub allow_secure : Bool

-- The flags that take a value, and those that do not.
pub data ValueFlag : Type 0 where
  config host port quic_port unix cache_dir config_dir pid_file workers : ValueFlag
  log_file log_level metrics_server ca_cert node_cert node_key relay_url : ValueFlag
  max_capacity_bytes unix_socket_mode api_key bootstrap : ValueFlag
  ws_port wt_port wt_h3_port ws_cert ws_key wt_cert wt_key : ValueFlag

pub data PlainFlag : Type 0 where
  foreground log_structured allow_secure : PlainFlag

pub data Word : Type 0 where
  takes_value : ValueFlag → Word
  plain : PlainFlag → Word
  help unknown : Word

-- The results 0, 1 (the help was shown) and -1 of `_parse_args`.
pub data ParseResult : Type 0 where
  parsed : OffsdArgs → ParseResult
  shown_help refused : ParseResult
