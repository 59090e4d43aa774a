-- ===== src/Cli/Paths/Conflicts.antt =====
-- What `cli_cache_paths_conflict` decides, on normalized paths and on any two paths.
use offs.Base.{
  ℕ, ◌<◌, some, [], ◌∷◌, ◌++◌, ◌==◌, Bytes, ◌≡◌, ◌∙◌, ◌↔◌, ◌⊎◌, refl, inl, inr, arith, length,
  Bool-cases, Option-cases,
}
use offs.Cli.Paths.{
  path_size, normalize_path, disjoint, same, nested, compare_paths, paths_conflict,
}
use offs.Cli.Paths.Normal.{IsNormal, normalize_path_self}

compare_paths_comm : (a b : Bytes) → compare_paths a b ≡ compare_paths b a
unfolding compare_paths
compare_paths_comm [] [] = refl
compare_paths_comm [] (d ∷ ds) = refl
compare_paths_comm (c ∷ cs) [] = refl
compare_paths_comm (c ∷ cs) (d ∷ ds) = ground (arith, compare_paths_comm cs ds)

-- The order of the two paths does not matter.
pub paths_conflict_comm : (a b : Bytes) → paths_conflict a b ≡ paths_conflict b a
unfolding paths_conflict
paths_conflict_comm a b = elim (Option-cases (normalize_path a path_size)) [
  | inl e ↦ ground arith
  | inr (na, e) ↦ elim (Option-cases (normalize_path b path_size)) [
    | inl f ↦ ground arith
    | inr (nb, f) ↦ ground (arith, compare_paths_comm na nb)
  ]
]

compare_paths_same : (a b : Bytes) → (compare_paths a b ≡ same) ↔ (a ≡ b)
unfolding compare_paths
compare_paths_same [] [] = ground arith
compare_paths_same [] (d ∷ ds) = ground arith
compare_paths_same (c ∷ cs) [] = ground arith
compare_paths_same (c ∷ cs) (d ∷ ds) = ground (arith, compare_paths_same cs ds)

-- `b` is `a`, a separator and more.
abbrev pub Under : Bytes → Bytes → Type 0
Under a b = (rest : Bytes) × (b ≡ a ++ b'/' ∷ rest)

compare_paths-Under : (a b : Bytes) → compare_paths a b ≡ nested → Under a b ⊎ Under b a
unfolding compare_paths
compare_paths-Under [] [] h = cc
compare_paths-Under [] (d ∷ ds) h = inl (ds, ground arith)
compare_paths-Under (c ∷ cs) [] h = inr (cs, ground arith)
compare_paths-Under (c ∷ cs) (d ∷ ds) h = elim (Bool-cases (c == d)) [
  | inl e ↦ elim (compare_paths-Under cs ds (ground arith)) [
    | inl (rest, u) ↦ inl (rest, ground arith)
    | inr (rest, u) ↦ inr (rest, ground arith)
  ]
  | inr ne ↦ ground arith
]

Under-compare_paths : (a rest : Bytes) → compare_paths a (a ++ b'/' ∷ rest) ≡ nested
unfolding compare_paths
Under-compare_paths [] rest = refl
Under-compare_paths (c ∷ cs) rest = ground (arith, Under-compare_paths cs rest)

-- For two paths that normalize, the answer is `same` exactly when the normalized paths are equal,
-- and `nested` exactly when one of them is the other, a separator and more.
pub paths_conflict_normalized :
    (a b na nb : Bytes)
    → normalize_path a path_size ≡ some na
    → normalize_path b path_size ≡ some nb
    → ((paths_conflict a b ≡ same) ↔ (na ≡ nb))
      × ((paths_conflict a b ≡ nested) ↔ (Under na nb ⊎ Under nb na))
unfolding paths_conflict
paths_conflict_normalized a b na nb ea eb =
    rw (ea, eb) (compare_paths_same na nb, (compare_paths-Under na nb, back))
  where
    back : Under na nb ⊎ Under nb na → compare_paths na nb ≡ nested
    back (inl (rest, u)) = rw u (Under-compare_paths na rest)
    back (inr (rest, u)) = rw u (compare_paths_comm _ nb ∙ Under-compare_paths nb rest)

-- The root directory is reported as disjoint from every directory in it: of "/" and "/x" the
-- longer path's next byte is no separator, since the root ends in one.
pub paths_conflict_root :
    (c : ℕ) (cs : Bytes)
    → IsNormal (b'/' ∷ c ∷ cs)
    → length (b'/' ∷ c ∷ cs) < path_size
    → paths_conflict (b'/' ∷ []) (b'/' ∷ c ∷ cs) ≡ disjoint
unfolding paths_conflict compare_paths
paths_conflict_root c cs n h =
    rw
      (
        normalize_path_self (b'/' ∷ []) path_size
            (record { is_collapsed = refl; no_trailing = refl }) (omega arith),
        normalize_path_self (b'/' ∷ c ∷ cs) path_size n h,
      )
      (let k = n.is_collapsed in ground arith)
