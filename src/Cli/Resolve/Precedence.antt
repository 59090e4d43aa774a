-- ===== src/Cli/Resolve/Precedence.antt =====
-- The order in which the sources of a directory are taken.
use offs.Base.{
  ℕ, ◌-◌, ◌≤◌, ◌<◌, Option, none, some, [], ◌∷◌, length, take, Bytes, ◌≡◌, ◌≢◌, refl, ap, arith,
  length-take,
}
use offs.Cli.Resolve.{
  Platform, print_into, nonempty_text, or_else, resolve_config_dir, resolve_current,
  file_config_dir, file_cache_dir, staged_cache_dir,
}

abbrev pub printed : ℕ → Option Bytes → Option Bytes
printed out_size none = none
printed out_size (some s) = some (print_into out_size s)

module _ {Item : Type 0} (P : Platform Item) where
  -- The flag comes before the configuration file, and that before the platform's default. For the
  -- cache directory a staged one comes between the file and the default. Nothing is found only if
  -- none of them is there.
  pub resolve_precedence :
      (flag config_dir : Option Bytes) (out_size : ℕ)
      → (resolve_config_dir P flag out_size
          ≡ printed out_size
              (or_else (nonempty_text flag) (or_else (file_config_dir P) P.default_config_dir)))
        × (resolve_current P flag config_dir out_size
            ≡ printed out_size (
                or_else (nonempty_text flag) (
                  or_else
                    (file_cache_dir P)
                    (or_else (staged_cache_dir P config_dir) P.default_cache_dir))))
  unfolding resolve_config_dir resolve_current
  resolve_precedence flag config_dir out_size = ground arith

  -- A directory given by the flag that does not fit a buffer, which is not empty, is cut to
  -- another path, and the call reports success all the same.
  pub resolve_config_dir_cut :
      (flag : Bytes) (out_size : ℕ)
      → 0 < out_size
      → out_size ≤ length flag
      → (resolve_config_dir P (some flag) out_size ≡ some (take (out_size - 1) flag))
        × (take (out_size - 1) flag ≢ flag)
  unfolding resolve_config_dir
  resolve_config_dir_cut [] out_size p h = absurd (omega arith)
  resolve_config_dir_cut (c ∷ cs) out_size p h =
      (refl, λ e. omega (arith, ap length e, length-take (out_size - 1) (c ∷ cs)))
