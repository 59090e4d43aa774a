-- ===== src/Cli/Put/Flags.antt =====
-- What `offs put` accepts on its command line (src/offs/commands/put.c).
use offs.Base.{
  ℕ, ◌≤◌, true, false, Option, none, some, List, [], ◌∷◌, Bytes, codes, has_prefix, ◌≡◌, ◌≢◌, ◌⊎◌,
  inl, inr, refl, arith, Option-cases,
}
use offs.Cli.Put.{
  Recycle, no_recycling, PutOptions, no_options, accepted, Word, help, temporary, recycler,
  recycle_ephemeral, tuple_size, unknown_flag, positional, word_of, recycle_mode, parse_tuple_size,
  check_options, parse_put, take_path, set_recycle, set_tuple_size,
}

-- The tuple size is at least 1, and the default where none was given; the file, if there is one,
-- is no flag.
pub record IsSound (o : PutOptions) : Type 0 where
  pub size_ge : 1 ≤ o.tuple_size
  pub size_default : o.has_tuple_size ≡ false → o.tuple_size ≡ 3
  pub path_plain : (p : Bytes) → o.file_path ≡ some p → has_prefix (codes "--") p ≡ false

parse_tuple_size-ge : (v : Bytes) (n : ℕ) → parse_tuple_size v ≡ some n → 1 ≤ n
unfolding parse_tuple_size
parse_tuple_size-ge v n h = ground arith

word_of-positional : (arg : Bytes) → word_of arg ≡ positional → has_prefix (codes "--") arg ≡ false
unfolding word_of
word_of-positional arg h = ground arith

take_path-IsSound :
    (arg : Bytes) (o : PutOptions)
    → has_prefix (codes "--") arg ≡ false
    → IsSound o
    → IsSound (take_path arg o)
unfolding take_path
take_path-IsSound arg o k s = record {
  size_ge = s.size_ge;
  size_default = s.size_default;
  path_plain = λ p e. ground (arith, s.path_plain p);
}

set_recycle-IsSound :
    (mode : Option Recycle) (o o' : PutOptions)
    → IsSound o
    → set_recycle o mode ≡ some o'
    → IsSound o'
unfolding set_recycle
set_recycle-IsSound none o o' s e = absurd (ground arith)
set_recycle-IsSound (some mode) o o' s e = record {
  size_ge = ground (arith, s.size_ge);
  size_default = λ k. ground (arith, s.size_default);
  path_plain = λ p k. ground (arith, s.path_plain p);
}

set_tuple_size-IsSound :
    (value : Bytes) (o o' : PutOptions)
    → IsSound o
    → set_tuple_size o (parse_tuple_size value) ≡ some o'
    → IsSound o'
unfolding set_tuple_size
set_tuple_size-IsSound value o o' s e = elim (Option-cases (parse_tuple_size value)) [
  | inl k ↦ absurd (ground arith)
  | inr (n, k) ↦ record {
    size_ge = ground (arith, parse_tuple_size-ge value n k);
    size_default = λ k'. ground arith;
    path_plain = λ p k'. ground (arith, s.path_plain p);
  }
]

-- Options that are accepted: sound, for that file, and with a recycler if blocks are recycled.
pub record IsAccepted (path : Bytes) (o : PutOptions) : Type 0 where
  pub sound : IsSound o
  pub file : o.file_path ≡ some path
  pub recycles : (o.recycle_ephemeral ≡ no_recycling) ⊎ (o.recycler_url ≢ none)

check_options-IsAccepted :
    (o o' : PutOptions) (path : Bytes)
    → IsSound o
    → check_options o ≡ accepted path o'
    → IsAccepted path o'
unfolding check_options
check_options-IsAccepted o o' path s e =
    let same : o ≡ o' = ground arith in
    record { sound = rw same at s; file = ground arith; recycles = ground arith }

parse_put_sound :
    (argv : List Bytes) (path : Bytes) (o o' : PutOptions)
    → IsSound o
    → parse_put argv o ≡ accepted path o'
    → IsAccepted path o'
unfolding parse_put
parse_put_sound [] path o o' s e = check_options-IsAccepted o o' path s e
parse_put_sound (arg ∷ []) path o o' s e = go (word_of arg) refl
  where
    go : (w : Word) → word_of arg ≡ w → IsAccepted path o'
    go temporary k =
        check_options-IsAccepted (record o { temporary = true }) o' path
          (record { size_ge = s.size_ge; size_default = s.size_default; path_plain = s.path_plain })
          (ground arith)
    go positional k =
        check_options-IsAccepted (take_path arg o) o' path
          (take_path-IsSound arg o (word_of-positional arg k) s) (ground arith)
    go help k = absurd (ground arith)
    go recycler k = absurd (ground arith)
    go recycle_ephemeral k = absurd (ground arith)
    go tuple_size k = absurd (ground arith)
    go unknown_flag k = absurd (ground arith)
parse_put_sound (arg ∷ value ∷ argv) path o o' s e =
    go (word_of arg) refl (λ p s'. parse_put_sound argv path p o' s')
      (λ p s'. parse_put_sound (value ∷ argv) path p o' s')
  where
    go :
        (w : Word)
        → word_of arg ≡ w
        → ((p : PutOptions) → IsSound p → parse_put argv p ≡ accepted path o' → IsAccepted path o')
        → ((p : PutOptions)
            → IsSound p
            → parse_put (value ∷ argv) p ≡ accepted path o'
            → IsAccepted path o')
        → IsAccepted path o'
    go temporary k behind next =
        next (record o { temporary = true })
          (record { size_ge = s.size_ge; size_default = s.size_default; path_plain = s.path_plain })
          (ground arith)
    go positional k behind next =
        next (take_path arg o) (take_path-IsSound arg o (word_of-positional arg k) s) (ground arith)
    go recycler k behind next =
        behind (record o { recycler_url = some value })
          (record { size_ge = s.size_ge; size_default = s.size_default; path_plain = s.path_plain })
          (ground arith)
    go recycle_ephemeral k behind next = elim (Option-cases (set_recycle o (recycle_mode value))) [
      | inl bad ↦ absurd (ground arith)
      | inr (p, good) ↦
          behind p (set_recycle-IsSound (recycle_mode value) o p s good) (ground arith)
    ]
    go tuple_size k behind next = elim (Option-cases (set_tuple_size o (parse_tuple_size value))) [
      | inl bad ↦ absurd (ground arith)
      | inr (p, good) ↦ behind p (set_tuple_size-IsSound value o p s good) (ground arith)
    ]
    go help k behind next = absurd (ground arith)
    go unknown_flag k behind next = absurd (ground arith)

no_options-IsSound : IsSound no_options
no_options-IsSound = record {
  size_ge = omega arith;
  size_default = λ k. refl;
  path_plain = λ p e. absurd (ground arith);
}

-- If the arguments of `offs put` are accepted for a file, that file is no flag, the tuple size is
-- at least 1 and is 3 if none was given, and a recycler is given if ephemeral blocks are to be
-- committed or propagated.
pub parse_put-IsAccepted :
    (argv : List Bytes) (path : Bytes) (o : PutOptions)
    → parse_put argv no_options ≡ accepted path o
    → IsAccepted path o
parse_put-IsAccepted argv path o e = parse_put_sound argv path no_options o no_options-IsSound e
