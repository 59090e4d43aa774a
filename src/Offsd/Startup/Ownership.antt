-- ===== src/Offsd/Startup/Ownership.antt =====
-- Who owns what at the end of `_startup` (src/offsd/main.c), stage by stage up to the network.
use offs.Base.{
  Bool, true, false, not, ◌||◌, Option, none, some, ◌==◌, ◌≡◌, refl, arith, Bytes, Bool-cases, inl,
  inr,
}
use offs.Offsd.Args.{OffsdArgs}
use offs.Offsd.Life.{
  authority, block_cache, ofd_cache, tuple_cache, http_server, Server, created, loaded_ca, seeded,
  generated_cert, Trace,
}
use offs.Offsd.Life.Steps.{Leaves, call-Leaves}
use offs.Offsd.Startup.{
  Config, Outside, choose_cert, cert_copy, key_copy, ensure_cert, adopt_default, default_cert,
}
use offs.Offsd.Startup.Lists.{release_caches, release_before_authority, release_block}
use offs.Offsd.Startup.Stages.{
  Attempt, Stage, booted, failed, either, seed_bootstrap, copied, copy_key, copy_cert, settle_cert,
  loaded, load_ca, load_tls, start_http, start_caches, start_block, start_authority,
  start_configured,
}
use offs.Offsd.Startup.Transports.{either-Clean, made-Clean, start_network-Clean}
use offs.Offsd.Startup.Release.{
  is_up, is_ruled, ruled-up, Clean, clean, Owned, lacks_network, lacks_http, lacks_caches,
  lacks_block, lacks_authority, release_base-Clean, release_caches-Clean, release_authority-Clean,
  release_before_authority-Clean, release_block-Clean,
}

-- A start that leaks nothing ends in particular as one that may leak.
pub leaky-Clean : (may_leak : Bool) {end : Attempt} → Clean false end → Clean may_leak end
unfolding Owned
leaky-Clean may_leak {end = booted c a s t} (clean owned) = clean owned
leaky-Clean may_leak {end = failed t} (clean (empty, fine, no_authority)) =
    clean (empty, fine, ground arith)

-- Only the second way may leak.
leak_of_second-Clean :
    (b : Bool) (first second : Stage) (c : Config) (a : OffsdArgs) {s : Server} {t : Trace}
    → Clean false (first c a s t)
    → Clean true (second c a s t)
    → Clean (not b) (either b first second c a s t)
unfolding either
leak_of_second-Clean true first second c a one other = one
leak_of_second-Clean false first second c a one other = other

module _ (O : Outside) where
  seed_bootstrap-Leaves :
      (peers : Option Bytes) {s : Server} {t : Trace}
      → s.authority ≡ true
      → Leaves s t
      → Leaves s (seed_bootstrap O peers t)
  unfolding seed_bootstrap
  seed_bootstrap-Leaves none rules so_far = so_far
  seed_bootstrap-Leaves (some peers) rules so_far =
      call-Leaves (seeded peers (O.seed_bootstrap peers)) rules so_far

  copy_key-Clean :
      (c : Config) (a : OffsdArgs) {s : Server} {t : Trace}
      → is_ruled s ≡ true
      → lacks_network s ≡ true
      → Leaves s t
      → Clean false (copy_key O c a s t)
  unfolding copy_key
  copy_key-Clean c a {s} {t} up lacks so_far =
      either-Clean (copied O key_copy a.node_key_path) _ _ c a
        (start_network-Clean O c a up lacks
          (seed_bootstrap-Leaves c.bootstrap_peers (ground arith) so_far))
        (release_authority-Clean (ruled-up s up) so_far lacks)

  copy_cert-Clean :
      (c : Config) (a : OffsdArgs) {s : Server} {t : Trace}
      → is_ruled s ≡ true
      → lacks_network s ≡ true
      → Leaves s t
      → Clean false (copy_cert O c a s t)
  unfolding copy_cert
  copy_cert-Clean c a {s} {t} up lacks so_far =
      either-Clean (copied O cert_copy a.node_cert_path) _ _ c a
        (copy_key-Clean c a up lacks so_far) (release_authority-Clean (ruled-up s up) so_far lacks)

  ensure_cert-Leaves :
      (cert key : Bytes) {s : Server} {t : Trace} → Leaves s t → Leaves s (ensure_cert O cert key t)
  unfolding ensure_cert
  ensure_cert-Leaves cert key so_far =
      elim (Bool-cases (not (O.exists cert) || not (O.exists key))) [
        | inl e ↦
            rw e (call-Leaves (generated_cert cert key (O.generate_cert cert key)) refl so_far)
        | inr e ↦ rw e so_far
      ]

  adopt_default-Leaves :
      (cert key : Option Bytes) (a : OffsdArgs) {s : Server} {t : Trace}
      → Leaves s t
      → Leaves s (adopt_default O cert key a t).1
  unfolding adopt_default
  adopt_default-Leaves (some cert) (some key) a so_far = ensure_cert-Leaves cert key so_far
  adopt_default-Leaves none key a so_far = so_far
  adopt_default-Leaves (some cert) none a so_far = so_far

  default_cert-Leaves :
      (dir : Option Bytes) (a : OffsdArgs) {s : Server} {t : Trace}
      → Leaves s t
      → Leaves s (default_cert O dir a t).1
  unfolding default_cert
  default_cert-Leaves none a so_far = so_far
  default_cert-Leaves (some dir) a so_far = adopt_default-Leaves _ _ a so_far

  choose_cert-Leaves :
      (cert key : Option Bytes) (a : OffsdArgs) {s : Server} {t : Trace}
      → Leaves s t
      → Leaves s (choose_cert O cert key a t).1
  unfolding choose_cert
  choose_cert-Leaves none none a so_far = default_cert-Leaves a.config_dir a so_far
  choose_cert-Leaves (some cert) (some key) a so_far = ensure_cert-Leaves cert key so_far
  choose_cert-Leaves none (some key) a so_far = so_far
  choose_cert-Leaves (some cert) none a so_far = so_far

  settle_cert-Clean :
      (c : Config) (a : OffsdArgs) {s : Server} {t : Trace}
      → is_ruled s ≡ true
      → lacks_network s ≡ true
      → Leaves s t
      → Clean false (settle_cert O c a s t)
  unfolding settle_cert
  settle_cert-Clean c a up lacks so_far =
      copy_cert-Clean c _ up lacks (choose_cert-Leaves a.node_cert_path a.node_key_path a so_far)

  loaded-Clean :
      (ok : Bool) (path : Bytes) (c : Config) (a : OffsdArgs) {s : Server} {t : Trace}
      → is_ruled s ≡ true
      → lacks_network s ≡ true
      → Leaves s t
      → Clean false (loaded O ok path c a s t)
  unfolding loaded
  loaded-Clean true path c a up lacks so_far =
      settle_cert-Clean c a up lacks (call-Leaves (loaded_ca path true) (ground arith) so_far)
  loaded-Clean false path c a {s} up lacks so_far =
      release_authority-Clean (ruled-up s up)
        (call-Leaves (loaded_ca path false) (ground arith) so_far) lacks

  load_ca-Clean :
      (path : Option Bytes) (c : Config) (a : OffsdArgs) {s : Server} {t : Trace}
      → is_ruled s ≡ true
      → lacks_network s ≡ true
      → Leaves s t
      → Clean false (load_ca O path c a s t)
  unfolding load_ca
  load_ca-Clean none c a up lacks so_far = settle_cert-Clean c a up lacks so_far
  load_ca-Clean (some path) c a up lacks so_far =
      loaded-Clean (O.load_ca_cert path) path c a up lacks so_far

  load_tls-Clean :
      (c : Config) (a : OffsdArgs) {s : Server} {t : Trace}
      → is_ruled s ≡ true
      → lacks_network s ≡ true
      → Leaves s t
      → Clean false (load_tls O c a s t)
  unfolding load_tls
  load_tls-Clean c a up lacks so_far = load_ca-Clean a.ca_cert_path c a up lacks so_far

  start_http-Clean :
      (c : Config) (a : OffsdArgs) {s : Server} {t : Trace}
      → is_ruled s ≡ true
      → lacks_http s ≡ true
      → Leaves s t
      → Clean (not (a.port == 0)) (start_http O c a s t)
  unfolding start_http
  start_http-Clean c a {s} {t} up lacks so_far =
      leak_of_second-Clean (a.port == 0) _ _ c a (load_tls-Clean c a up (ground arith) so_far) (
        made-Clean (O.creates http_server) http_server release_caches (load_tls O) c a
          (ground arith) so_far
          (λ after. leaky-Clean true (load_tls-Clean c a up (ground arith) after))
          (λ after. release_caches-Clean (ruled-up s up) after lacks))

  start_caches-Clean :
      (c : Config) (a : OffsdArgs) {s : Server} {t : Trace}
      → is_ruled s ≡ true
      → lacks_caches s ≡ true
      → Leaves s t
      → Clean (not (a.port == 0)) (start_caches O c a s t)
  unfolding start_caches
  start_caches-Clean c a {s} {t} up lacks so_far = start_http-Clean c a up (ground arith) (
      call-Leaves (created tuple_cache (O.creates tuple_cache)) (ground arith)
        (call-Leaves (created ofd_cache (O.creates ofd_cache)) (ground arith) so_far))

  start_block-Clean :
      (c : Config) (a : OffsdArgs) {s : Server} {t : Trace}
      → is_ruled s ≡ true
      → lacks_block s ≡ true
      → Leaves s t
      → Clean (not (a.port == 0)) (start_block O c a s t)
  unfolding start_block
  start_block-Clean c a {s} {t} up lacks so_far =
      made-Clean (O.creates block_cache) block_cache release_block (start_caches O) c a
        (ground arith) so_far (λ after. start_caches-Clean c a up (ground arith) after)
        (λ after. leaky-Clean _ (release_block-Clean (ruled-up s up) after lacks))

  start_authority-Clean :
      (c : Config) (a : OffsdArgs) {s : Server} {t : Trace}
      → is_up s ≡ true
      → lacks_authority s ≡ true
      → Leaves s t
      → Clean (not (a.port == 0)) (start_authority O c a s t)
  unfolding start_authority
  start_authority-Clean c a {s} {t} up lacks so_far =
      made-Clean (O.creates authority) authority release_before_authority (start_block O) c a
        (ground arith) so_far (λ after. start_block-Clean c a up (ground arith) after)
        (λ after. leaky-Clean _ (release_before_authority-Clean up after lacks))

  pub start_configured-Clean :
      (c : Option Config) (a : OffsdArgs) {s : Server} {t : Trace}
      → is_up s ≡ true
      → lacks_authority s ≡ true
      → Leaves s t
      → Clean (not (a.port == 0)) (start_configured O c a s t)
  unfolding start_configured
  start_configured-Clean none a up lacks so_far = leaky-Clean _ (release_base-Clean up so_far lacks)
  start_configured-Clean (some c) a up lacks so_far = start_authority-Clean c a up lacks so_far
