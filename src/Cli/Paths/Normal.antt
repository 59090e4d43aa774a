-- ===== src/Cli/Paths/Normal.antt =====
-- The result of `_normalize_path`.
use offs.Base.{
  ℕ, ◌-◌, ◌≤◌, ◌<◌, Bool, true, false, not, ◌&&◌, some, [], ◌∷◌, ◌==◌, Bytes, ◌≡◌, refl, ap, inl,
  inr, arith, length, Bool-cases, Option-cases,
}
use offs.Cli.Paths.{is_sep, normalize_loop, strip_tail, strip_trailing, normalize_path}

-- No backslash, and no '/' behind another ('/' before the text, if the flag says so).
abbrev pub collapsed : Bool → Bytes → Bool
collapsed after_sep [] = true
collapsed after_sep (c ∷ cs) =
    not (c == b'\\') && (not (after_sep && c == b'/') && collapsed (c == b'/') cs)

-- The last byte, if there is one, is no '/'.
abbrev pub ends_plain : Bytes → Bool
ends_plain [] = true
ends_plain (c ∷ []) = not (c == b'/')
ends_plain (c ∷ d ∷ ds) = ends_plain (d ∷ ds)

-- The same for all but the first byte: the root "/" is kept.
abbrev pub rest_ends_plain : Bytes → Bool
rest_ends_plain [] = true
rest_ends_plain (c ∷ cs) = ends_plain cs

pub record IsNormal (p : Bytes) : Type 0 where
  pub is_collapsed : collapsed false p ≡ true
  pub no_trailing : rest_ends_plain p ≡ true

normalize_loop-collapsed :
    (room : ℕ) (after_sep : Bool) (src out : Bytes)
    → normalize_loop room after_sep src ≡ some out
    → (collapsed after_sep out ≡ true) × (length out ≤ room)
unfolding normalize_loop
normalize_loop-collapsed room after_sep [] out h = ground arith
normalize_loop-collapsed room after_sep (c ∷ cs) out h = elim (Bool-cases (is_sep c && after_sep)) [
  | inl skip ↦ ground (arith, normalize_loop-collapsed room (is_sep c) cs out)
  | inr keep ↦ elim (Option-cases (normalize_loop (room - 1) (is_sep c) cs)) [
    | inl failed ↦ ground arith
    | inr (rest, done) ↦ ground (arith, normalize_loop-collapsed (room - 1) (is_sep c) cs rest done)
  ]
]

-- A collapsed text that fits is copied.
normalize_loop_self :
    (room : ℕ) (after_sep : Bool) (p : Bytes)
    → collapsed after_sep p ≡ true
    → length p ≤ room
    → normalize_loop room after_sep p ≡ some p
unfolding normalize_loop
normalize_loop_self room after_sep [] k h = refl
normalize_loop_self room after_sep (c ∷ cs) k h =
    ground (arith, normalize_loop_self (room - 1) (is_sep c) cs)

strip_tail-ends_plain : (s : Bytes) → ends_plain (strip_tail s) ≡ true
unfolding strip_tail
strip_tail-ends_plain [] = refl
strip_tail-ends_plain (c ∷ cs) = ground (arith, strip_tail-ends_plain cs)

strip_tail-collapsed :
    (after_sep : Bool) (s : Bytes)
    → collapsed after_sep s ≡ true
    → (collapsed after_sep (strip_tail s) ≡ true) × (length (strip_tail s) ≤ length s)
unfolding strip_tail
strip_tail-collapsed after_sep [] h = ground arith
strip_tail-collapsed after_sep (c ∷ cs) h = ground (arith, strip_tail-collapsed (c == b'/') cs)

strip_tail_self : (s : Bytes) → ends_plain s ≡ true → strip_tail s ≡ s
unfolding strip_tail
strip_tail_self [] h = refl
strip_tail_self (c ∷ []) h = ground arith
strip_tail_self (c ∷ d ∷ ds) h = ground (arith, strip_tail_self (d ∷ ds))

strip_trailing-IsNormal :
    (s : Bytes)
    → collapsed false s ≡ true
    → IsNormal (strip_trailing s) × (length (strip_trailing s) ≤ length s)
unfolding strip_trailing
strip_trailing-IsNormal [] h = (record { is_collapsed = refl; no_trailing = refl }, omega arith)
strip_trailing-IsNormal (c ∷ cs) h =
    ground (arith, strip_tail-ends_plain cs, strip_tail-collapsed (c == b'/') cs)

strip_trailing_self : (p : Bytes) → IsNormal p → strip_trailing p ≡ p
unfolding strip_trailing
strip_trailing_self [] n = refl
strip_trailing_self (c ∷ cs) n = ap (◌∷◌ c) (strip_tail_self cs n.no_trailing)

-- A path that `_normalize_path` accepts comes out with no backslash, no doubled separator and no
-- trailing separator (but for the root), and with its terminator it fits the buffer.
pub normalize_path-IsNormal :
    (src : Bytes) (out_size : ℕ) (p : Bytes)
    → 0 < out_size
    → normalize_path src out_size ≡ some p
    → IsNormal p × (length p < out_size)
unfolding normalize_path
normalize_path-IsNormal src out_size p h e =
    elim (Option-cases (normalize_loop (out_size - 1) false src)) [
      | inl failed ↦ ground arith
      | inr (out, done) ↦ ground (
        arith,
        normalize_loop-collapsed (out_size - 1) false src out done,
        strip_trailing-IsNormal out,
      )
    ]

-- A path in normal form that fits the buffer is left alone.
pub normalize_path_self :
    (p : Bytes) (out_size : ℕ)
    → IsNormal p
    → length p < out_size
    → normalize_path p out_size ≡ some p
unfolding normalize_path
normalize_path_self p out_size n h =
    rw (normalize_loop_self (out_size - 1) false p n.is_collapsed (omega arith))
      (ap some (strip_trailing_self p n))
