-- ===== src/Cli/Config/Staging.antt =====
-- What `offs config` (src/offs/commands/config.c) asks the daemon to stage.
use offs.Base.{
  ℕ, ◌≤◌, Bool, true, false, not, some, [], ◌∷◌, ◌++◌, ◌==◌, all, Bytes, codes, str_eq, ◌≡◌, ◌⊎◌,
  refl, ap, arith,
}
use offs.Cli.Config.{
  ConfigHost, status_of, is_bcrypt_hash, split_eq, Subcommand, set, add, remove, subcommand_of,
  run_subcommand, cmd_config, set_pair,
}

split_eq-append :
    (field value : Bytes)
    → all (λ c. not (c == b'=')) field ≡ true
    → split_eq (field ++ (b'=' ∷ value)) ≡ some (field, value)
unfolding split_eq
split_eq-append [] value h = refl
split_eq-append (c ∷ cs) value h = ground (arith, split_eq-append cs value)

-- The subcommands whose field is an argument.
abbrev pub names_field : Subcommand → Bool
names_field set = true
names_field add = true
names_field remove = true
names_field _ = false

module _ {Item : Type 0} (H : ConfigHost Item) where
  -- `set field=value` and `add field value` do the same, for a field without the separator.
  pub cmd_config-set_add :
      (field value : Bytes)
      → all (λ c. not (c == b'=')) field ≡ true
      → cmd_config H (codes "set" ∷ (field ++ (b'=' ∷ value)) ∷ [])
        ≡ cmd_config H (codes "add" ∷ field ∷ value ∷ [])
  unfolding cmd_config subcommand_of str_eq codes run_subcommand set_pair
  cmd_config-set_add field value h = ap (set_pair H) (split_eq-append field value h)

  -- A hash: one of the right form that was given, or what bcrypt makes of a key with a cost in
  -- range.
  abbrev pub IsHash : Bytes → Type 0
  IsHash value =
      (is_bcrypt_hash value ≡ true)
      ⊎ ((key : Bytes) × ((n : ℕ) × ((4 ≤ n)
              × ((n ≤ 31) × (H.bcrypt_generate key n ≡ some value)))))

  pub record Staged (sub : Subcommand) (status : ℕ) (field value : Bytes) : Type 0 where
    pub decides : status ≡ status_of (H.set_answer field value)
    pub named : (names_field sub ≡ true) ⊎ ((field ≡ codes "api_key_hash") × IsHash value)
