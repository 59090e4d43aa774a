-- ===== src/Offsd/Startup.antt =====
-- What `_startup` (src/offsd/main.c) reads and decides: the configuration it starts from, the API
-- key's hash, the node's certificate.
pub mod Lists
pub mod Stages
pub mod Release
pub mod Transports
pub mod Ownership
pub mod Ends
use offs.Base.{
  ℕ, ◌<◌, Bool, true, false, not, ◌||◌, Option, none, some, ◌∷◌, ltb, if◌then◌else◌, ◌>>=◌, Bytes,
  codes,
}
use offs.Cli.Hex.{generate_random_api_key}
use offs.Offsd.Args.{OffsdArgs}
use offs.Offsd.Life.{Part, Trace, generated_cert}

-- The fields of config_t that the daemon itself reads or sets.
pub record Config : Type 0 where
  pub max_capacity_bytes : ℕ
  pub eabf_base_ttl_ms : ℕ
  pub respiration_tau_min_ms : ℕ
  pub respiration_tau_max_ms : ℕ
  pub bootstrap_peers : Option Bytes
  pub api_key_hash : Option Bytes
  pub cache_dir : Option Bytes

-- The strings that are copied with strdup.
pub data Copy : Type 0 where
  bootstrap_copy api_key_copy hash_copy cert_copy key_copy auth_copy : Copy

-- What one start meets: the machine, and the library's calls with their results.
pub record Outside : Type 0 where
  pub mkdir : Bytes → Bool
  pub creates : Part → Bool
  pub copies : Copy → Bool
  -- config_default
  pub config_default : Config
  -- 32 random bytes for _generate_random_api_key
  pub random : Option Bytes
  -- bcrypt_generate with cost 12
  pub bcrypt_generate : Bytes → Option Bytes
  pub load_ca_cert : Bytes → Bool
  pub path_join : Bytes → Bytes → Option Bytes
  -- access(path, F_OK) == 0
  pub exists : Bytes → Bool
  pub generate_cert : Bytes → Bytes → Bool
  pub seed_bootstrap : Bytes → Bool

abbrev set_if_positive : ℕ → ℕ → ℕ
set_if_positive value old = if ltb 0 value then value else old

-- The numbers that the arguments override.
unfoldable pub override_numbers : OffsdArgs → Config → Config
override_numbers a c = record c {
  max_capacity_bytes = set_if_positive a.max_capacity_bytes c.max_capacity_bytes;
  eabf_base_ttl_ms = set_if_positive a.eabf_base_ttl_ms c.eabf_base_ttl_ms;
  respiration_tau_min_ms = set_if_positive a.respiration_tau_min_ms c.respiration_tau_min_ms;
  respiration_tau_max_ms = set_if_positive a.respiration_tau_max_ms c.respiration_tau_max_ms;
}

module _ (O : Outside) where
  -- The bootstrap list; `none` when its copy fails.
  unfoldable pub override_bootstrap : Option Bytes → Config → Option Config
  override_bootstrap none c = some c
  override_bootstrap (some peers) c =
      if O.copies bootstrap_copy then some (record c { bootstrap_peers = some peers }) else none

  -- The key of the arguments, or a random one.
  unfoldable pub plaintext_key : Option Bytes → Option Bytes
  plaintext_key (some key) = if O.copies api_key_copy then some key else none
  plaintext_key none = generate_random_api_key O.random

  abbrev keep_hash : Bytes → Config → Option Config
  keep_hash hash c =
      if O.copies hash_copy then some (record c { api_key_hash = some hash }) else none

  -- From the accepted configuration to the stored hash.
  unfoldable pub settle_config : OffsdArgs → Config → Option Config
  settle_config a c = do
    with_peers ← override_bootstrap a.bootstrap_peers (override_numbers a c)
    key ← plaintext_key a.api_key
    hash ← O.bcrypt_generate key
    keep_hash hash with_peers

  -- The certificate and key are made where one of them is missing.
  unfoldable pub ensure_cert : Bytes → Bytes → Trace → Trace
  ensure_cert cert key t =
      if not (O.exists cert) || not (O.exists key)
      then generated_cert cert key (O.generate_cert cert key) ∷ t
      else t

  -- The default paths, both or none of them found.
  unfoldable pub adopt_default : Option Bytes → Option Bytes → OffsdArgs → Trace → OffsdArgs × Trace
  adopt_default (some cert) (some key) a t =
      (record a { node_cert_path = some cert; node_key_path = some key }, ensure_cert cert key t)
  adopt_default none key a t = (a, t)
  adopt_default (some cert) none a t = (a, t)

  -- With no path configured, under the configuration's directory.
  unfoldable pub default_cert : Option Bytes → OffsdArgs → Trace → OffsdArgs × Trace
  default_cert none a t = (a, t)
  default_cert (some dir) a t =
      adopt_default (O.path_join dir (codes "certs/node.pem"))
        (O.path_join dir (codes "certs/node-key.pem")) a t

  -- By the configured paths.
  unfoldable pub choose_cert : Option Bytes → Option Bytes → OffsdArgs → Trace → OffsdArgs × Trace
  choose_cert none none a t = default_cert a.config_dir a t
  choose_cert (some cert) (some key) a t = (a, ensure_cert cert key t)
  choose_cert none (some key) a t = (a, t)
  choose_cert (some cert) none a t = (a, t)
