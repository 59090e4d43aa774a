-- ===== src/Cli/Paths/Components.antt =====
-- `_normalize_path` keeps what a path names: its components in order.
use offs.Base.{
  ℕ, ◌-◌, Bool, true, false, ◌&&◌, some, List, [], ◌∷◌, ◌++◌, if◌then◌else◌, Bytes, ◌≡◌, refl, inl,
  inr, arith, Bool-cases, Option-cases,
}
use offs.Cli.Paths.{is_sep, normalize_loop, strip_tail, strip_trailing, normalize_path}

abbrev flush : Bytes → List Bytes → List Bytes
flush [] names = names
flush (c ∷ cs) names = (c ∷ cs) ∷ names

-- The nonempty runs of bytes between separators, `current` being the run that is open.
components_from : Bytes → Bytes → List Bytes
components_from current [] = flush current []
components_from current (c ∷ cs) =
    let closed = flush current (components_from [] cs) in
    let open_run = components_from (current ++ c ∷ []) cs in if is_sep c then closed else open_run

unfoldable pub components : Bytes → List Bytes
unfolding components_from
components = components_from []

components_from-normalize_loop :
    (room : ℕ) (after_sep : Bool) (src out current : Bytes)
    → normalize_loop room after_sep src ≡ some out
    → (after_sep ≡ true → current ≡ [])
    → components_from current out ≡ components_from current src
unfolding normalize_loop components_from
components_from-normalize_loop room after_sep [] out current h k = ground arith
components_from-normalize_loop room after_sep (c ∷ cs) out current h k =
    elim (Bool-cases (is_sep c && after_sep)) [
      | inl skip ↦ ground (arith, components_from-normalize_loop room (is_sep c) cs out [])
      | inr keep ↦ elim (Option-cases (normalize_loop (room - 1) (is_sep c) cs)) [
        | inl failed ↦ ground arith
        | inr (rest, done) ↦ ground (
          arith,
          components_from-normalize_loop (room - 1) (is_sep c) cs rest [] done,
          components_from-normalize_loop (room - 1) (is_sep c) cs rest (current ++ c ∷ []) done,
        )
      ]
    ]

components_from-strip_tail :
    (current s : Bytes) → components_from current (strip_tail s) ≡ components_from current s
unfolding strip_tail components_from
components_from-strip_tail current [] = refl
components_from-strip_tail current (c ∷ cs) =
    ground
      (arith, components_from-strip_tail [] cs, components_from-strip_tail (current ++ c ∷ []) cs)

components-strip_trailing : (s : Bytes) → components (strip_trailing s) ≡ components s
unfolding strip_trailing components
components-strip_trailing [] = refl
components-strip_trailing (c ∷ cs) =
    ground (arith, components_from-strip_tail [] cs, components_from-strip_tail (c ∷ []) cs)

-- A path that is accepted has the components of the text that was given.
pub components-normalize_path :
    (src : Bytes) (out_size : ℕ) (p : Bytes)
    → normalize_path src out_size ≡ some p
    → components p ≡ components src
unfolding normalize_path components
components-normalize_path src out_size p e =
    elim (Option-cases (normalize_loop (out_size - 1) false src)) [
      | inl failed ↦ ground arith
      | inr (out, done) ↦ ground (
        arith,
        components-strip_trailing out,
        components_from-normalize_loop (out_size - 1) false src out [] done,
      )
    ]
