-- ===== src/Cli/Cache/Resize/Staged.antt =====
-- When `offs cache size` stages a size (src/offs/commands/cache.c).
use offs.Base.{ℕ, ◌≤◌, Bool, none, some, ◌∷◌, Bytes, codes, ◌≡◌, ◌⊎◌, if◌then◌else◌}
use offs.Cli.Host.{Host, staged_number, Trace}
use offs.Cli.Resolve.{Platform, resolve_config_dir, buffer_size}
use offs.Cli.Cache.Resize.{
  Exchange, applied, refused, unreachable, outcome, SizeOptions, SizeArgs, help, usage, options,
  size_of,
}

abbrev pub the_field : Bytes
the_field = codes "max_capacity_bytes"

-- 2^53: up to it a double is exact.
abbrev pub exact_limit : ℕ
exact_limit = 9007199254740992

module _ {Item : Type 0} (H : Host) (P : Platform Item) (resize : ℕ → Exchange)
    (double : ℕ → ℕ) where
  -- A run that stages nothing, with the status it has: the help, wrong arguments, a value that is no
  -- size, a size that the daemon took, one that it refused, or a daemon that cannot be reached and no
  -- directory to stage in.
  pub data IsUnstaged : SizeArgs → ℕ → Type 0 where
    helped : IsUnstaged help 0
    misused : IsUnstaged usage 1
    malformed : {o : SizeOptions} → size_of o.value_text ≡ none → IsUnstaged (options o) 1
    resized :
        {o : SizeOptions} {bytes : ℕ}
        → size_of o.value_text ≡ some bytes
        → outcome (resize bytes) ≡ applied
        → IsUnstaged (options o) 0
    declined :
        {o : SizeOptions} {bytes : ℕ}
        → size_of o.value_text ≡ some bytes
        → outcome (resize bytes) ≡ refused
        → IsUnstaged (options o) 1
    nowhere :
        {o : SizeOptions} {bytes : ℕ}
        → size_of o.value_text ≡ some bytes
        → outcome (resize bytes) ≡ unreachable
        → resolve_config_dir P o.config_dir_flag buffer_size ≡ none
        → IsUnstaged (options o) 1

  -- A run's status and trace: nothing is staged, or the size's conversion to a double is staged in
  -- the resolved directory, after the daemon could not be reached; it is the exact size up to 2^53,
  -- and the status tells whether that succeeded.
  unfoldable pub Sized : SizeArgs → Trace → ℕ × Trace → Type 0
  Sized args t (status, new) =
      ((new ≡ t) × IsUnstaged args status)
      ⊎ ((o : SizeOptions) × (bytes : ℕ) × (staged_bytes : ℕ) × (config_dir : Bytes) × (ok : Bool)
          × (args ≡ options o)
          × (size_of o.value_text ≡ some bytes)
          × (outcome (resize bytes) ≡ unreachable)
          × (resolve_config_dir P o.config_dir_flag buffer_size ≡ some config_dir)
          × (new ≡ staged_number config_dir the_field staged_bytes ok ∷ t)
          × (bytes ≤ exact_limit → staged_bytes ≡ bytes)
          × (status ≡ (if ok then 0 else 1)))
