-- ===== src/Offsd/ParseArgs/Defaults.antt =====
-- How the defaults of `_run_offsd` meet the configuration file: a default that is set before the
-- file is read counts as a setting, and a setting that equals the default counts as none.
use offs.Base.{
  Option, none, some, List, [], ◌∷◌, Bytes, codes, str_eq, ◌≡◌, ◌≢◌, inl, inr, refl, arith,
  uint16_of, atoi, Option-cases,
}
use offs.Offsd.Args.{
  OffsdArgs, ValueFlag, PlainFlag, Word, takes_value, plain, help, unknown, parsed,
}
use offs.Offsd.Args.Flags.{word_of, apply_value, apply_plain, parse_flags}
use offs.Offsd.ConfigFile.Precedence.{host, get-parse_config}
use offs.Offsd.ParseArgs.{Machine, finish_args, apply_config, after_flags, parse_args, start_args}

abbrev HasHost : OffsdArgs → Type 0
HasHost a = a.host ≢ none

apply_value-HasHost :
    (f : ValueFlag) (v : Bytes) (a b : OffsdArgs)
    → HasHost a
    → apply_value f v a ≡ some b
    → HasHost b
unfolding apply_value
apply_value-HasHost ValueFlag.host v a b h e = ground arith
apply_value-HasHost _ v a b h e = ground arith

apply_plain-HasHost : (f : PlainFlag) (a : OffsdArgs) → HasHost a → HasHost (apply_plain f a)
unfolding apply_plain
apply_plain-HasHost PlainFlag.foreground a h = h
apply_plain-HasHost _ a h = h

parse_flags-HasHost :
    (argv : List Bytes) (a b : OffsdArgs) → HasHost a → parse_flags argv a ≡ parsed b → HasHost b
unfolding parse_flags
parse_flags-HasHost [] a b h e = ground arith
parse_flags-HasHost (arg ∷ []) a b h e = go (word_of arg) refl
  where
    go : (w : Word) → word_of arg ≡ w → HasHost b
    go (takes_value f) k = absurd (ground arith)
    go (plain f) k =
        let e' : apply_plain f a ≡ b = ground arith in rw e' at (apply_plain-HasHost f a h)
    go help k = absurd (ground arith)
    go unknown k = absurd (ground arith)
parse_flags-HasHost (arg ∷ value ∷ argv) a b h e =
    go (word_of arg) refl (λ a' h'. parse_flags-HasHost argv a' b h')
      (λ a' h'. parse_flags-HasHost (value ∷ argv) a' b h')
  where
    go :
        (w : Word)
        → word_of arg ≡ w
        → ((a' : OffsdArgs) → HasHost a' → parse_flags argv a' ≡ parsed b → HasHost b)
        → ((a' : OffsdArgs) → HasHost a' → parse_flags (value ∷ argv) a' ≡ parsed b → HasHost b)
        → HasHost b
    go (takes_value f) k behind next = elim (Option-cases (apply_value f value a)) [
      | inl bad ↦ absurd (ground arith)
      | inr (a', good) ↦ behind a' (apply_value-HasHost f value a a' h good) (ground arith)
    ]
    go (plain f) k behind next = next (apply_plain f a) (apply_plain-HasHost f a h) (ground arith)
    go help k behind next = absurd (ground arith)
    go unknown k behind next = absurd (ground arith)

module _ {Item : Type 0} (m : Machine Item) where
  apply_config-host :
      (path : Option Bytes) (a b : OffsdArgs)
      → HasHost a
      → apply_config m path a ≡ some b
      → b.host ≡ a.host
  unfolding apply_config
  apply_config-host none a b h e = ground arith
  apply_config-host (some path) a b h e = elim (Option-cases (m.read_json path)) [
    | inl k ↦ absurd (ground arith)
    | inr (root, k) ↦ ground (arith, get-parse_config m.json root host a b)
  ]

  -- The host is never taken from the configuration file: it is the one that the flags leave, be
  -- that an explicit one or the default 0.0.0.0, since the default is set before the file is read.
  pub parse_args-host :
      (argv : List Bytes) (a b : OffsdArgs)
      → parse_flags argv (start_args m) ≡ parsed a
      → parse_args m argv (start_args m) ≡ parsed b
      → b.host ≡ a.host
  unfolding parse_args after_flags finish_args start_args
  parse_args-host argv a b k e =
      let h = parse_flags-HasHost argv (start_args m) a (λ z. cc) k in
      elim (Option-cases (apply_config m a.config_path a)) [
        | inl bad ↦ absurd (ground arith)
        | inr (c, good) ↦ ground (arith, apply_config-host a.config_path a c h good)
      ]

  -- `--port 23402` in front of a command line changes nothing, so that a port in the
  -- configuration file is taken in spite of it.
  pub parse_args-default_port :
      (argv : List Bytes)
      → parse_args m (codes "--port" ∷ codes "23402" ∷ argv) (start_args m)
        ≡ parse_args m argv (start_args m)
  unfolding parse_args parse_flags start_args word_of codes str_eq apply_value atoi uint16_of
  parse_args-default_port argv = refl
