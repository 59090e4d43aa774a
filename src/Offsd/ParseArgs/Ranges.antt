-- ===== src/Offsd/ParseArgs/Ranges.antt =====
-- The flags and the configuration file (src/offsd/main.c) keep the arguments in range.
use offs.Base.{
  ℕ, ◌≤◌, ◌<◌, ℤ, pos, negsuc, Bool, true, false, Option, none, some, List, [], ◌∷◌, Bytes, ◌≡◌,
  ◌⊎◌, inl, inr, refl, arith, uint16_of, atoi, Option-cases, codes,
}
use offs.Json.{Json, section_field}
use offs.Offsd.Args.{
  OffsdArgs, ValueFlag, PlainFlag, Word, takes_value, plain, help, unknown, parsed,
}
use offs.Offsd.Args.Flags.{word_of, parse_mode, apply_value, apply_plain, parse_flags}
use offs.Offsd.ConfigFile.{
  fill_number, port_of, port_at, fill_daemon, fill_network, fill_eabf, fill_tau, fill_mode,
  mode_from_text, fill_rest, parse_config,
}

pub record IsValid (a : OffsdArgs) : Type 0 where
  pub port : a.port < 65536
  pub quic_port : a.quic_port < 65536
  pub ws_port : a.ws_port < 65536
  pub wt_port : a.wt_port < 65536
  pub wt_h3_port : a.wt_h3_port < 65536
  pub mode : a.unix_socket_mode ≤ 0o777
  pub eabf : (a.eabf_base_ttl_ms ≡ 0) ⊎ (64000 ≤ a.eabf_base_ttl_ms)
  pub tau :
      (a.respiration_tau_min_ms ≡ 0)
      ⊎ (a.respiration_tau_max_ms ≡ 0)
      ⊎ (a.respiration_tau_min_ms ≤ a.respiration_tau_max_ms)

uint16_of-lt : (z : ℤ) → uint16_of z < 65536
unfolding uint16_of
uint16_of-lt (pos n) = omega arith
uint16_of-lt (negsuc n) = omega arith

parse_mode-le : (text : Bytes) (mode : ℕ) → parse_mode text ≡ some mode → mode ≤ 0o777
unfolding parse_mode
parse_mode-le text mode h = ground arith

apply_value-IsValid :
    (f : ValueFlag) (v : Bytes) (a b : OffsdArgs)
    → IsValid a
    → apply_value f v a ≡ some b
    → IsValid b
unfolding apply_value
apply_value-IsValid ValueFlag.port v a b h e = ground (arith, uint16_of-lt (atoi v))
apply_value-IsValid ValueFlag.quic_port v a b h e = ground (arith, uint16_of-lt (atoi v))
apply_value-IsValid ValueFlag.ws_port v a b h e = ground (arith, uint16_of-lt (atoi v))
apply_value-IsValid ValueFlag.wt_port v a b h e = ground (arith, uint16_of-lt (atoi v))
apply_value-IsValid ValueFlag.wt_h3_port v a b h e = ground (arith, uint16_of-lt (atoi v))
apply_value-IsValid ValueFlag.unix_socket_mode v a b h e = elim (Option-cases (parse_mode v)) [
  | inl bad ↦ absurd (ground arith)
  | inr (mode, good) ↦ ground (arith, parse_mode-le v mode good)
]
apply_value-IsValid _ v a b h e = ground arith

apply_plain-IsValid : (f : PlainFlag) (a : OffsdArgs) → IsValid a → IsValid (apply_plain f a)
unfolding apply_plain
apply_plain-IsValid PlainFlag.foreground a h = ground arith
apply_plain-IsValid _ a h = ground arith

pub parse_flags-IsValid :
    (argv : List Bytes) (a b : OffsdArgs) → IsValid a → parse_flags argv a ≡ parsed b → IsValid b
unfolding parse_flags
parse_flags-IsValid [] a b h e = ground arith
parse_flags-IsValid (arg ∷ []) a b h e = go (word_of arg) refl
  where
    go : (w : Word) → word_of arg ≡ w → IsValid b
    go (takes_value f) k = absurd (ground arith)
    go (plain f) k =
        let e' : apply_plain f a ≡ b = ground arith in rw e' at (apply_plain-IsValid f a h)
    go help k = absurd (ground arith)
    go unknown k = absurd (ground arith)
parse_flags-IsValid (arg ∷ value ∷ argv) a b h e =
    go (word_of arg) refl (λ a' h'. parse_flags-IsValid argv a' b h')
      (λ a' h'. parse_flags-IsValid (value ∷ argv) a' b h')
  where
    go :
        (w : Word)
        → word_of arg ≡ w
        → ((a' : OffsdArgs) → IsValid a' → parse_flags argv a' ≡ parsed b → IsValid b)
        → ((a' : OffsdArgs) → IsValid a' → parse_flags (value ∷ argv) a' ≡ parsed b → IsValid b)
        → IsValid b
    go (takes_value f) k behind next = elim (Option-cases (apply_value f value a)) [
      | inl bad ↦ absurd (ground arith)
      | inr (a', good) ↦ behind a' (apply_value-IsValid f value a a' h good) (ground arith)
    ]
    go (plain f) k behind next = next (apply_plain f a) (apply_plain-IsValid f a h) (ground arith)
    go help k behind next = absurd (ground arith)
    go unknown k behind next = absurd (ground arith)

module _ {Item : Type 0} (J : Json Item) (root : Item) where
  fill_daemon-IsValid : (a : OffsdArgs) → IsValid a → IsValid (fill_daemon J root a)
  unfolding fill_daemon
  fill_daemon-IsValid a h = ground arith

  port_at-lt :
      (old : ℕ) (unset : Bool) (section : Bytes)
      → old < 65536
      → fill_number unset old (port_at J root section) < 65536
  port_at-lt old unset section h = go unset (section_field J J.int root section (codes "port"))
    where
      go : (u : Bool) (z : Option ℤ) → fill_number u old (port_of J root z) < 65536
      go false z = h
      go true none = h
      go true (some z) = uint16_of-lt z

  fill_network-IsValid : (a : OffsdArgs) → IsValid a → IsValid (fill_network J root a)
  unfolding fill_network
  fill_network-IsValid a h = record {
    port = port_at-lt a.port _ (codes "network") h.port;
    quic_port = h.quic_port;
    ws_port = h.ws_port;
    wt_port = h.wt_port;
    wt_h3_port = h.wt_h3_port;
    mode = h.mode;
    eabf = h.eabf;
    tau = h.tau;
  }

  fill_eabf-IsValid : (a b : OffsdArgs) → IsValid a → fill_eabf J root a ≡ some b → IsValid b
  unfolding fill_eabf
  fill_eabf-IsValid a b h e = ground arith

  fill_tau-IsValid : (a b : OffsdArgs) → IsValid a → fill_tau J root a ≡ some b → IsValid b
  unfolding fill_tau
  fill_tau-IsValid a b h e = ground arith

  mode_from_text-IsValid :
      (t : Option Bytes) (a b : OffsdArgs)
      → IsValid a
      → mode_from_text J root a t ≡ some b
      → IsValid b
  unfolding mode_from_text
  mode_from_text-IsValid none a b h e = absurd (ground arith)
  mode_from_text-IsValid (some []) a b h e = ground arith
  mode_from_text-IsValid (some (c ∷ cs)) a b h e = elim (Option-cases (parse_mode (c ∷ cs))) [
    | inl bad ↦ absurd (ground arith)
    | inr (mode, good) ↦ ground (arith, parse_mode-le (c ∷ cs) mode good)
  ]

  fill_mode-IsValid : (a b : OffsdArgs) → IsValid a → fill_mode J root a ≡ some b → IsValid b
  unfolding fill_mode
  fill_mode-IsValid a b h e =
      elim (Option-cases (section_field J some root (codes "network") (codes "unix-socket-mode"))) [
        | inl k ↦ ground arith
        | inr (item, k) ↦ mode_from_text-IsValid (J.text item) a b h (ground arith)
      ]

  fill_rest-IsValid : (a : OffsdArgs) → IsValid a → IsValid (fill_rest J root a)
  unfolding fill_rest
  fill_rest-IsValid a h = record {
    port = h.port;
    quic_port = h.quic_port;
    ws_port = port_at-lt a.ws_port _ (codes "websocket") h.ws_port;
    wt_port = port_at-lt a.wt_port _ (codes "webtransport") h.wt_port;
    wt_h3_port = h.wt_h3_port;
    mode = h.mode;
    eabf = h.eabf;
    tau = h.tau;
  }

  pub parse_config-IsValid :
      (a b : OffsdArgs) → IsValid a → parse_config J root a ≡ some b → IsValid b
  unfolding parse_config
  parse_config-IsValid a b h e = elim (Option-cases (fill_eabf J root start)) [
    | inl k ↦ absurd (ground arith)
    | inr (a1, k1) ↦ elim (Option-cases (fill_tau J root a1)) [
      | inl k ↦ absurd (ground arith)
      | inr (a2, k2) ↦ elim (Option-cases (fill_mode J root a2)) [
        | inl k ↦ absurd (ground arith)
        | inr (a3, k3) ↦
            let v0 = fill_network-IsValid (fill_daemon J root a) (fill_daemon-IsValid a h) in
            let v1 = fill_eabf-IsValid start a1 v0 k1 in
            let v2 = fill_tau-IsValid a1 a2 v1 k2 in
            let v3 = fill_mode-IsValid a2 a3 v2 k3 in
            let e' : fill_rest J root a3 ≡ b = ground arith in rw e' at (fill_rest-IsValid a3 v3)
      ]
    ]
  ]
    where
      start : OffsdArgs
      start = fill_network J root (fill_daemon J root a)
