-- ===== src/Offsd/Args/Flags.antt =====
-- The loop of `_parse_args` over argv (src/offsd/main.c).
use offs.Base.{
  ℕ, ℤ, pos, negsuc, Bool, true, false, ◌||◌, not, Option, none, some, List, [], ◌∷◌, ltb,
  if◌then◌else◌, Bytes, codes, str_eq, read_number, ull_of, atoi, uint16_of,
}
use offs.Offsd.Args.{
  OffsdArgs, ValueFlag, PlainFlag, Word, takes_value, plain, help, unknown, ParseResult, parsed,
  shown_help, refused,
}

-- The chain of comparisons, for one argument.
unfoldable pub word_of : Bytes → Word
word_of arg =
    if str_eq arg (codes "--config")
    then takes_value ValueFlag.config
    else if str_eq arg (codes "--host")
    then takes_value ValueFlag.host
    else if str_eq arg (codes "--port")
    then takes_value ValueFlag.port
    else if str_eq arg (codes "--quic-port")
    then takes_value ValueFlag.quic_port
    else if str_eq arg (codes "--unix")
    then takes_value ValueFlag.unix
    else if str_eq arg (codes "--cache-dir")
    then takes_value ValueFlag.cache_dir
    else if str_eq arg (codes "--config-dir")
    then takes_value ValueFlag.config_dir
    else if str_eq arg (codes "--pid-file")
    then takes_value ValueFlag.pid_file
    else if str_eq arg (codes "--workers")
    then takes_value ValueFlag.workers
    else if str_eq arg (codes "--foreground")
    then plain PlainFlag.foreground
    else if str_eq arg (codes "--log-file")
    then takes_value ValueFlag.log_file
    else if str_eq arg (codes "--log-level")
    then takes_value ValueFlag.log_level
    else if str_eq arg (codes "--log-structured")
    then plain PlainFlag.log_structured
    else if str_eq arg (codes "--metrics-server")
    then takes_value ValueFlag.metrics_server
    else if str_eq arg (codes "--ca-cert")
    then takes_value ValueFlag.ca_cert
    else if str_eq arg (codes "--node-cert")
    then takes_value ValueFlag.node_cert
    else if str_eq arg (codes "--node-key")
    then takes_value ValueFlag.node_key
    else if str_eq arg (codes "--relay-url")
    then takes_value ValueFlag.relay_url
    else if str_eq arg (codes "--max-capacity-bytes")
    then takes_value ValueFlag.max_capacity_bytes
    else if str_eq arg (codes "--unix-socket-mode")
    then takes_value ValueFlag.unix_socket_mode
    else if str_eq arg (codes "--api-key")
    then takes_value ValueFlag.api_key
    else if str_eq arg (codes "--bootstrap")
    then takes_value ValueFlag.bootstrap
    else if str_eq arg (codes "--ws-port")
    then takes_value ValueFlag.ws_port
    else if str_eq arg (codes "--wt-port")
    then takes_value ValueFlag.wt_port
    else if str_eq arg (codes "--wt-h3-port")
    then takes_value ValueFlag.wt_h3_port
    else if str_eq arg (codes "--ws-cert")
    then takes_value ValueFlag.ws_cert
    else if str_eq arg (codes "--ws-key")
    then takes_value ValueFlag.ws_key
    else if str_eq arg (codes "--wt-cert")
    then takes_value ValueFlag.wt_cert
    else if str_eq arg (codes "--wt-key")
    then takes_value ValueFlag.wt_key
    else if str_eq arg (codes "--allow-secure")
    then plain PlainFlag.allow_secure
    else if str_eq arg (codes "--help")
    then help
    else unknown

abbrev is_nil : Bytes → Bool
is_nil [] = true
is_nil (c ∷ cs) = false

-- `strtoull(text, &end, 8)` with the tests behind it; `none` is the error.
unfoldable pub parse_mode : Bytes → Option ℕ
unfolding read_number ull_of
parse_mode text =
    let n = read_number 8 text in
    if not (is_nil n.rest) || ltb 0o777 (ull_of n) then none else some (ull_of n)

-- `if (args->worker_count < 0) args->worker_count = 0;`
abbrev at_least_0 : ℤ → ℤ
at_least_0 (pos n) = pos n
at_least_0 (negsuc n) = pos 0

set_mode : OffsdArgs → Option ℕ → Option OffsdArgs
set_mode a none = none
set_mode a (some mode) = some (record a { unix_socket_mode = mode })

-- The branch of a flag with its value; `none` is `return -1`.
unfoldable pub apply_value : ValueFlag → Bytes → OffsdArgs → Option OffsdArgs
unfolding set_mode
apply_value ValueFlag.config v a = some (record a { config_path = some v })
apply_value ValueFlag.host v a = some (record a { host = some v })
apply_value ValueFlag.port v a = some (record a { port = uint16_of (atoi v) })
apply_value ValueFlag.quic_port v a = some (record a { quic_port = uint16_of (atoi v) })
apply_value ValueFlag.unix v a = some (record a { unix_path = some v })
apply_value ValueFlag.cache_dir v a = some (record a { cache_dir = some v })
apply_value ValueFlag.config_dir v a = some (record a { config_dir = some v })
apply_value ValueFlag.pid_file v a = some (record a { pid_file = some v })
apply_value ValueFlag.workers v a = some (record a { worker_count = at_least_0 (atoi v) })
apply_value ValueFlag.log_file v a = some (record a { log_file = some v })
apply_value ValueFlag.log_level v a = some (record a { log_level_str = some v })
apply_value ValueFlag.metrics_server v a = some (record a { metrics_server_url = some v })
apply_value ValueFlag.ca_cert v a = some (record a { ca_cert_path = some v })
apply_value ValueFlag.node_cert v a = some (record a { node_cert_path = some v })
apply_value ValueFlag.node_key v a = some (record a { node_key_path = some v })
apply_value ValueFlag.relay_url v a = some (record a { relay_url = some v })
apply_value ValueFlag.max_capacity_bytes v a =
    some (record a { max_capacity_bytes = ull_of (read_number 10 v) })
apply_value ValueFlag.unix_socket_mode v a = set_mode a (parse_mode v)
apply_value ValueFlag.api_key v a = some (record a { api_key = some v })
apply_value ValueFlag.bootstrap v a = some (record a { bootstrap_peers = some v })
apply_value ValueFlag.ws_port v a = some (record a { ws_port = uint16_of (atoi v) })
apply_value ValueFlag.wt_port v a = some (record a { wt_port = uint16_of (atoi v) })
apply_value ValueFlag.wt_h3_port v a = some (record a { wt_h3_port = uint16_of (atoi v) })
apply_value ValueFlag.ws_cert v a = some (record a { ws_cert_path = some v })
apply_value ValueFlag.ws_key v a = some (record a { ws_key_path = some v })
apply_value ValueFlag.wt_cert v a = some (record a { wt_cert_path = some v })
apply_value ValueFlag.wt_key v a = some (record a { wt_key_path = some v })

unfoldable pub apply_plain : PlainFlag → OffsdArgs → OffsdArgs
apply_plain PlainFlag.foreground a = record a { foreground = true }
apply_plain PlainFlag.log_structured a = record a { log_structured = true }
apply_plain PlainFlag.allow_secure a = record a { allow_secure = true }

-- The loop. A flag that wants a value and has none behind it is an unknown option.
unfoldable pub parse_flags : List Bytes → OffsdArgs → ParseResult
parse_flags [] a = parsed a
parse_flags (arg ∷ []) a = elim (word_of arg) [
  | takes_value f ↦ refused
  | plain f ↦ parsed (apply_plain f a)
  | help ↦ shown_help
  | unknown ↦ refused
]
parse_flags (arg ∷ value ∷ argv) a = elim (word_of arg) [
  | takes_value f ↦ elim (apply_value f value a) [ none ↦ refused | some a' ↦ parse_flags argv a' ]
  | plain f ↦ parse_flags (value ∷ argv) (apply_plain f a)
  | help ↦ shown_help
  | unknown ↦ refused
]
