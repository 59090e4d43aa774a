-- ===== src/Offsd/ParseArgs/Valid.antt =====
-- The arguments that `_parse_args` (src/offsd/main.c) accepts are in range.
use offs.Base.{
  ◌≤◌, ℤ, pos, negsuc, Option, none, some, List, ◌==◌, Bytes, ◌≡◌, ◌≢◌, inl, inr, refl, arith,
  Option-cases, Bool-cases,
}
use offs.Offsd.Args.{OffsdArgs, ParseResult, parsed, shown_help, refused}
use offs.Offsd.Args.Flags.{parse_flags}
use offs.Offsd.ParseArgs.{
  Machine, get_worker_count, settle_workers, finish_args, apply_config, after_flags, parse_args,
  start_args,
}
use offs.Offsd.ParseArgs.Ranges.{IsValid, parse_flags-IsValid, parse_config-IsValid}

abbrev pub AtLeast1 : ℤ → Type 0
AtLeast1 (pos n) = 1 ≤ n
AtLeast1 (negsuc n) = ⊥

get_worker_count-ge : (processors : ℤ) → 2 ≤ get_worker_count processors
unfolding get_worker_count
get_worker_count-ge (negsuc n) = omega arith
get_worker_count-ge (pos n) = ground arith

settle_workers-AtLeast1 : (processors count : ℤ) → AtLeast1 (settle_workers processors count)
unfolding settle_workers
settle_workers-AtLeast1 processors (negsuc n) = omega arith
settle_workers-AtLeast1 processors (pos n) = elim (Bool-cases (n == 0)) [
  | inl none_set ↦ rw none_set (omega (arith, get_worker_count-ge processors))
  | inr some_set ↦ rw some_set (ground arith)
]

-- The arguments that are ready to use: in range, with at least one worker and with a socket path.
pub record IsReady (a : OffsdArgs) : Type 0 where
  pub valid : IsValid a
  pub workers : AtLeast1 a.worker_count
  pub has_socket : a.unix_path ≢ none

finish_args-IsReady :
    (processors : ℤ) (a : OffsdArgs) → IsValid a → IsReady (finish_args processors a)
unfolding finish_args
finish_args-IsReady processors a h = record {
  valid = ground arith;
  workers = settle_workers-AtLeast1 processors a.worker_count;
  has_socket = ground arith;
}

module _ {Item : Type 0} (m : Machine Item) where
  apply_config-IsValid :
      (path : Option Bytes) (a b : OffsdArgs)
      → IsValid a
      → apply_config m path a ≡ some b
      → IsValid b
  unfolding apply_config
  apply_config-IsValid none a b h e = ground arith
  apply_config-IsValid (some path) a b h e = elim (Option-cases (m.read_json path)) [
    | inl k ↦ absurd (ground arith)
    | inr (root, k) ↦ parse_config-IsValid m.json root a b h (ground arith)
  ]

  after_flags-IsReady :
      (a b : OffsdArgs) → IsValid a → after_flags m (parsed a) ≡ parsed b → IsReady b
  unfolding after_flags
  after_flags-IsReady a b h e = elim (Option-cases (apply_config m a.config_path a)) [
    | inl k ↦ absurd (ground arith)
    | inr (c, k) ↦
        let e' : finish_args m.processors c ≡ b = ground arith in
        rw e' at (finish_args-IsReady m.processors c (apply_config-IsValid a.config_path a c h k))
  ]

  start_args-IsValid : IsValid (start_args m)
  unfolding start_args
  start_args-IsValid = ground arith

  -- Whatever the command line and the configuration file hold, if the daemon's arguments are
  -- accepted, its ports fit 16 bits, the socket's mode is at most 0777, the base time to live is
  -- unset or at least 64000 ms, the bounds of the respiration are in order where both are set,
  -- there is at least one worker, and the local socket has a path.
  pub parse_args-IsReady :
      (argv : List Bytes) (b : OffsdArgs) → parse_args m argv (start_args m) ≡ parsed b → IsReady b
  unfolding parse_args after_flags
  parse_args-IsReady argv b e = go (parse_flags argv (start_args m)) refl
    where
      go : (r : ParseResult) → parse_flags argv (start_args m) ≡ r → IsReady b
      go (parsed a) k =
          after_flags-IsReady a b (parse_flags-IsValid argv (start_args m) a start_args-IsValid k)
            (rw k at e)
      go shown_help k = absurd (ground arith)
      go refused k = absurd (ground arith)
