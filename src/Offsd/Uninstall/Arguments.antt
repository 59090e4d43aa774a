-- ===== src/Offsd/Uninstall/Arguments.antt =====
-- What the parser of `offsd uninstall` reads from the arguments (src/offsd/main.c).
use offs.Base.{
  Bool, true, false, ◌&&◌, ◌||◌, none, some, List, [], ◌∷◌, Bytes, codes, any, str_eq, ◌≡◌, ap, inl,
  inr, arith, Bool-cases,
}
use offs.Offsd.Uninstall.{
  Choice, UninstallWord, config_word, cache_word, config_dir_word, cache_dir_word, unknown_word,
  uninstall_word, parse_uninstall, given,
}

-- Whether a directory is the word behind an option of this name, anywhere on the command line.
unfoldable pub follows : Bytes → Bytes → List Bytes → Bool
follows name dir [] = false
follows name dir (arg ∷ []) = false
follows name dir (arg ∷ value ∷ argv) =
    str_eq arg name && str_eq dir value || follows name dir (value ∷ argv)

-- What the choice has of the arguments.
pub record IsRead (argv : List Bytes) (b c : Choice) : Type 0 where
  pub cache :
      c.remove_cache ≡ true
      → (b.remove_cache || any (λ arg. str_eq arg (codes "--cache")) argv) ≡ true
  pub config :
      c.remove_config ≡ true
      → (b.remove_config || any (λ arg. str_eq arg (codes "--config")) argv) ≡ true
  pub cache_dir :
      (dir default : Bytes)
      → str_eq dir (given c.cache_dir default) ≡ true
      → (str_eq dir (given b.cache_dir default) || follows (codes "--cache-dir") dir argv) ≡ true
  pub config_dir :
      (dir default : Bytes)
      → str_eq dir (given c.config_dir default) ≡ true
      → (str_eq dir (given b.config_dir default) || follows (codes "--config-dir") dir argv) ≡ true

follows-cons :
    (name dir arg : Bytes) (argv : List Bytes)
    → follows name dir argv ≡ true
    → follows name dir (arg ∷ argv) ≡ true
unfolding follows
follows-cons name dir arg [] h = h
follows-cons name dir arg (value ∷ argv) h = ground arith

IsRead-config :
    (arg : Bytes) (argv : List Bytes) (b c : Choice)
    → str_eq arg (codes "--config") ≡ true
    → IsRead argv (record b { remove_config = true }) c
    → IsRead (arg ∷ argv) b c
IsRead-config arg argv b c e r = record {
  cache = λ h. ground (arith, r.cache h);
  config = λ h. ground arith;
  cache_dir = λ dir default h.
      ground (arith, r.cache_dir dir default h, follows-cons (codes "--cache-dir") dir arg argv);
  config_dir = λ dir default h.
      ground (arith, r.config_dir dir default h, follows-cons (codes "--config-dir") dir arg argv);
}

IsRead-cache :
    (arg : Bytes) (argv : List Bytes) (b c : Choice)
    → str_eq arg (codes "--cache") ≡ true
    → IsRead argv (record b { remove_cache = true }) c
    → IsRead (arg ∷ argv) b c
IsRead-cache arg argv b c e r = record {
  cache = λ h. ground arith;
  config = λ h. ground (arith, r.config h);
  cache_dir = λ dir default h.
      ground (arith, r.cache_dir dir default h, follows-cons (codes "--cache-dir") dir arg argv);
  config_dir = λ dir default h.
      ground (arith, r.config_dir dir default h, follows-cons (codes "--config-dir") dir arg argv);
}

IsRead-config_dir :
    (arg value : Bytes) (argv : List Bytes) (b c : Choice)
    → str_eq arg (codes "--config-dir") ≡ true
    → IsRead argv (record b { config_dir = some value }) c
    → IsRead (arg ∷ value ∷ argv) b c
unfolding follows
IsRead-config_dir arg value argv b c e r = record {
  cache = λ h. ground (arith, r.cache h);
  config = λ h. ground (arith, r.config h);
  cache_dir = λ dir default h.
      ground (arith, r.cache_dir dir default h, follows-cons (codes "--cache-dir") dir value argv);
  config_dir = λ dir default h.
      ground
        (arith, r.config_dir dir default h, follows-cons (codes "--config-dir") dir value argv);
}

IsRead-cache_dir :
    (arg value : Bytes) (argv : List Bytes) (b c : Choice)
    → str_eq arg (codes "--cache-dir") ≡ true
    → IsRead argv (record b { cache_dir = some value }) c
    → IsRead (arg ∷ value ∷ argv) b c
unfolding follows
IsRead-cache_dir arg value argv b c e r = record {
  cache = λ h. ground (arith, r.cache h);
  config = λ h. ground (arith, r.config h);
  cache_dir = λ dir default h.
      ground (arith, r.cache_dir dir default h, follows-cons (codes "--cache-dir") dir value argv);
  config_dir = λ dir default h.
      ground
        (arith, r.config_dir dir default h, follows-cons (codes "--config-dir") dir value argv);
}

-- What an argument is read as.
data IsWord (arg : Bytes) : UninstallWord → Type 0 where
  is_config : str_eq arg (codes "--config") ≡ true → IsWord arg config_word
  is_cache : str_eq arg (codes "--cache") ≡ true → IsWord arg cache_word
  is_config_dir : str_eq arg (codes "--config-dir") ≡ true → IsWord arg config_dir_word
  is_cache_dir : str_eq arg (codes "--cache-dir") ≡ true → IsWord arg cache_dir_word
  is_unknown : IsWord arg unknown_word

uninstall_word-IsWord : (arg : Bytes) → IsWord arg (uninstall_word arg)
unfolding uninstall_word
uninstall_word-IsWord arg = elim (Bool-cases (str_eq arg (codes "--config"))) [
  | inl e ↦ rw e (is_config e)
  | inr e ↦ rw e (elim (Bool-cases (str_eq arg (codes "--cache"))) [
    | inl e ↦ rw e (is_cache e)
    | inr e ↦ rw e (elim (Bool-cases (str_eq arg (codes "--config-dir"))) [
      | inl e ↦ rw e (is_config_dir e)
      | inr e ↦ rw e (elim (Bool-cases (str_eq arg (codes "--cache-dir"))) [
        | inl e ↦ rw e (is_cache_dir e)
        | inr e ↦ rw e is_unknown
      ])
    ])
  ])
]

IsRead-none : (b : Choice) → IsRead [] b b
IsRead-none b = record {
  cache = λ h. ground arith;
  config = λ h. ground arith;
  cache_dir = λ dir default h. ground arith;
  config_dir = λ dir default h. ground arith;
}

some-inj : {x y : Choice} → some x ≡ some y → x ≡ y
some-inj {x} h = ap (λ o. elim o [ none ↦ x | some z ↦ z ]) h

-- The last argument.
IsRead-last :
    (arg : Bytes) (b c : Choice) (w : UninstallWord)
    → IsWord arg w
    → elim w [
      | config_word ↦ some (record b { remove_config = true })
      | cache_word ↦ some (record b { remove_cache = true })
      | config_dir_word ↦ none
      | cache_dir_word ↦ none
      | unknown_word ↦ none
    ]
      ≡ some c
    → IsRead (arg ∷ []) b c
IsRead-last arg b c config_word (is_config e) h =
    IsRead-config arg [] b c e (rw⁻¹ (some-inj h) (IsRead-none _))
IsRead-last arg b c cache_word (is_cache e) h =
    IsRead-cache arg [] b c e (rw⁻¹ (some-inj h) (IsRead-none _))
IsRead-last arg b c config_dir_word w h = absurd (ground arith)
IsRead-last arg b c cache_dir_word w h = absurd (ground arith)
IsRead-last arg b c unknown_word w h = absurd (ground arith)

-- One that others follow.
IsRead-one :
    (arg value : Bytes) (argv : List Bytes) (b c : Choice) (w : UninstallWord)
    → IsWord arg w
    → ((b' : Choice) → parse_uninstall (value ∷ argv) b' ≡ some c → IsRead (value ∷ argv) b' c)
    → ((b' : Choice) → parse_uninstall argv b' ≡ some c → IsRead argv b' c)
    → elim w [
      | config_word ↦ parse_uninstall (value ∷ argv) (record b { remove_config = true })
      | cache_word ↦ parse_uninstall (value ∷ argv) (record b { remove_cache = true })
      | config_dir_word ↦ parse_uninstall argv (record b { config_dir = some value })
      | cache_dir_word ↦ parse_uninstall argv (record b { cache_dir = some value })
      | unknown_word ↦ none
    ]
      ≡ some c
    → IsRead (arg ∷ value ∷ argv) b c
IsRead-one arg value argv b c config_word (is_config e) next after h =
    IsRead-config arg (value ∷ argv) b c e (next _ h)
IsRead-one arg value argv b c cache_word (is_cache e) next after h =
    IsRead-cache arg (value ∷ argv) b c e (next _ h)
IsRead-one arg value argv b c config_dir_word (is_config_dir e) next after h =
    IsRead-config_dir arg value argv b c e (after _ h)
IsRead-one arg value argv b c cache_dir_word (is_cache_dir e) next after h =
    IsRead-cache_dir arg value argv b c e (after _ h)
IsRead-one arg value argv b c unknown_word w next after h = absurd (ground arith)

pub parse_uninstall-IsRead :
    (argv : List Bytes) (b c : Choice) → parse_uninstall argv b ≡ some c → IsRead argv b c
unfolding parse_uninstall
parse_uninstall-IsRead [] b c h = rw⁻¹ (some-inj h) (IsRead-none b)
parse_uninstall-IsRead (arg ∷ []) b c h =
    IsRead-last arg b c (uninstall_word arg) (uninstall_word-IsWord arg) h
parse_uninstall-IsRead (arg ∷ value ∷ argv) b c h =
    IsRead-one arg value argv b c (uninstall_word arg) (uninstall_word-IsWord arg)
      (λ b' h. parse_uninstall-IsRead (value ∷ argv) b' c h)
      (λ b' h. parse_uninstall-IsRead argv b' c h) h
