-- ===== src/Offsd/Uninstall/Chosen.antt =====
-- What `_run_uninstall` (src/offsd/main.c) removes.
use offs.Base.{
  Bool, true, false, not, ◌&&◌, ◌||◌, Option, none, some, List, [], Bytes, codes, any, str_eq,
  str_eq_refl, all, ◌≡◌, refl, inl, inr, arith, Bool-cases,
}
use offs.Offsd.Life.{Event, removed_dir, Trace, live, safe, no_server}
use offs.Offsd.Life.Steps.{Leaves, leaves, call-Leaves}
use offs.Offsd.Uninstall.Arguments.{follows, IsRead, parse_uninstall-IsRead}
use offs.Offsd.Uninstall.{
  Choice, no_choice, parse_uninstall, Disk, given, remove_there, remove_chosen, remove_both,
  with_defaults, uninstall_chosen, run_uninstall,
}

-- With the flag `--cache`, say, among the arguments, the directory behind `--cache-dir` or the
-- default one may be removed.
unfoldable pub is_asked : List Bytes → Bytes → Bytes → Bytes → Bytes → Bool
is_asked argv flag option default dir =
    any (λ arg. str_eq arg flag) argv && (str_eq dir default || follows option dir argv)

-- The arguments ask for the removal of a directory, and nothing else is done.
unfoldable pub is_chosen : List Bytes → Bytes → Bytes → Event → Bool
is_chosen argv config_dir cache_dir (removed_dir dir ok) =
    is_asked argv (codes "--cache") (codes "--cache-dir") cache_dir dir
    || is_asked argv (codes "--config") (codes "--config-dir") config_dir dir
is_chosen argv config_dir cache_dir _ = false

module _ (D : Disk) where
  remove_chosen-all :
      (test : Event → Bool) (chosen : Bool) (dir : Bytes) (t : Trace)
      → ((ok : Bool) → chosen ≡ true → test (removed_dir dir ok) ≡ true)
      → all test t ≡ true
      → all test (remove_chosen D chosen dir t).1 ≡ true
  unfolding remove_chosen remove_there
  remove_chosen-all test false dir t fits h = h
  remove_chosen-all test true dir t fits h = elim (Bool-cases (D.is_there t dir)) [
    | inl e ↦ rw (e, remove_there) (rw (fits (D.rm_rf t dir) refl) h)
    | inr e ↦ rw (e, remove_there) h
  ]

  remove_both-all :
      (test : Event → Bool) (c : Choice) (config_dir cache_dir : Bytes) (t : Trace)
      → ((ok : Bool) → c.remove_cache ≡ true → test (removed_dir cache_dir ok) ≡ true)
      → ((ok : Bool) → c.remove_config ≡ true → test (removed_dir config_dir ok) ≡ true)
      → all test t ≡ true
      → all test (remove_both D c config_dir cache_dir t).1 ≡ true
  unfolding remove_both
  remove_both-all test c config_dir cache_dir t fits_cache fits_config h =
      remove_chosen-all test c.remove_config config_dir _ fits_config
        (remove_chosen-all test c.remove_cache cache_dir t fits_cache h)

  -- A choice whose removals a test allows.
  record Fits (test : Event → Bool) (c : Choice) (config_dir cache_dir : Bytes) : Type 0 where
    fits_cache :
        (ok : Bool)
        → c.remove_cache ≡ true
        → test (removed_dir (given c.cache_dir cache_dir) ok) ≡ true
    fits_config :
        (ok : Bool)
        → c.remove_config ≡ true
        → test (removed_dir (given c.config_dir config_dir) ok) ≡ true

  uninstall_chosen-all :
      (test : Event → Bool) (c : Choice) (config_dir cache_dir : Bytes)
      → D.default_dirs ≡ some (config_dir, cache_dir)
      → Fits test c config_dir cache_dir
      → all test (uninstall_chosen D (some c) []).1 ≡ true
  unfolding uninstall_chosen with_defaults remove_both remove_chosen remove_there
  uninstall_chosen-all test c config_dir cache_dir defaults fits =
      elim (Bool-cases (not c.remove_config && not c.remove_cache)) [
        | inl e ↦ rw e refl
        | inr e ↦
            rw e (rw defaults (remove_both-all test c _ _ [] fits.fits_cache fits.fits_config refl))
      ]

  IsRead-Fits :
      (argv : List Bytes) (c : Choice) (config_dir cache_dir : Bytes)
      → IsRead argv no_choice c
      → Fits (is_chosen argv config_dir cache_dir) c config_dir cache_dir
  unfolding is_chosen is_asked
  IsRead-Fits argv c config_dir cache_dir r =
      let at_cache = r.cache_dir _ cache_dir (str_eq_refl _) in
      let at_config = r.config_dir _ config_dir (str_eq_refl _) in
      record {
        fits_cache = λ ok h. ground (arith, r.cache h, at_cache);
        fits_config = λ ok h. ground (arith, r.config h, at_config);
      }

  parsed-all :
      (argv : List Bytes) (choice : Option Choice) (config_dir cache_dir : Bytes)
      → parse_uninstall argv no_choice ≡ choice
      → D.default_dirs ≡ some (config_dir, cache_dir)
      → all (is_chosen argv config_dir cache_dir) (uninstall_chosen D choice []).1 ≡ true
  unfolding uninstall_chosen
  parsed-all argv none config_dir cache_dir parsed defaults = refl
  parsed-all argv (some c) config_dir cache_dir parsed defaults =
      uninstall_chosen-all _ c config_dir cache_dir defaults
        (IsRead-Fits argv c config_dir cache_dir (parse_uninstall-IsRead argv no_choice c parsed))

  -- `uninstall` removes only directories that the arguments ask for, whatever else stands among them:
  -- a cache's directory just where `--cache` is an argument, and a configuration's where `--config`
  -- is; each the default one or one that stands behind `--cache-dir` or `--config-dir`.
  pub run_uninstall-is_chosen :
      (argv : List Bytes) (config_dir cache_dir : Bytes)
      → D.default_dirs ≡ some (config_dir, cache_dir)
      → all (is_chosen argv config_dir cache_dir) (run_uninstall D argv []).1 ≡ true
  unfolding run_uninstall
  run_uninstall-is_chosen argv config_dir cache_dir defaults =
      parsed-all argv (parse_uninstall argv no_choice) config_dir cache_dir refl defaults

  remove_chosen-Leaves :
      (chosen : Bool) (dir : Bytes) {t : Trace}
      → Leaves no_server t
      → Leaves no_server (remove_chosen D chosen dir t).1
  unfolding remove_chosen remove_there
  remove_chosen-Leaves false dir so_far = so_far
  remove_chosen-Leaves true dir {t} so_far = elim (Bool-cases (D.is_there t dir)) [
    | inl e ↦ rw (e, remove_there) (call-Leaves (removed_dir dir (D.rm_rf t dir)) refl so_far)
    | inr e ↦ rw (e, remove_there) so_far
  ]

  with_defaults-Leaves :
      (defaults : Option (Bytes × Bytes)) (c : Choice) {t : Trace}
      → Leaves no_server t
      → Leaves no_server (with_defaults D defaults c t).1
  unfolding with_defaults remove_both
  with_defaults-Leaves none c so_far = so_far
  with_defaults-Leaves (some (config_dir, cache_dir)) c so_far =
      remove_chosen-Leaves c.remove_config _ (remove_chosen-Leaves c.remove_cache _ so_far)

  uninstall_chosen-Leaves :
      (c : Option Choice) {t : Trace}
      → Leaves no_server t
      → Leaves no_server (uninstall_chosen D c t).1
  unfolding uninstall_chosen
  uninstall_chosen-Leaves none so_far = so_far
  uninstall_chosen-Leaves (some c) so_far =
      elim (Bool-cases (not c.remove_config && not c.remove_cache)) [
        | inl e ↦ rw e so_far
        | inr e ↦ rw e (with_defaults-Leaves D.default_dirs c so_far)
      ]

  pub run_uninstall-Leaves : (argv : List Bytes) → Leaves no_server (run_uninstall D argv []).1
  unfolding run_uninstall live safe
  run_uninstall-Leaves argv =
      uninstall_chosen-Leaves (parse_uninstall argv no_choice) (leaves refl refl)
