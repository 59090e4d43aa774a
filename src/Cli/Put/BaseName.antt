-- ===== src/Cli/Put/BaseName.antt =====
-- The name under which `offs put` stores a file (src/offs/commands/put.c).
use offs.Base.{
  ℕ, Bool, true, not, List, [], ◌∷◌, ◌++◌, all, Bytes, ◌≡◌, ◌∙◌, inl, inr, refl, sym, ap, arith,
  Bool-cases, append_assoc, append-nil,
}
use offs.Cli.Put.{is_sep, base_name_from, base_name}

-- What comes before the base name: nothing, or a text that ends in a separator.
abbrev pub ends_in_sep : Bytes → Bool
ends_in_sep [] = true
ends_in_sep (c ∷ []) = is_sep c
ends_in_sep (c ∷ d ∷ ds) = ends_in_sep (d ∷ ds)

pub record Splits (path name : Bytes) : Type 0 where
  pub dir : Bytes
  pub joins : path ≡ dir ++ name
  pub dir_ends : ends_in_sep dir ≡ true
  pub name_plain : all (λ c. not (is_sep c)) name ≡ true

ends_in_sep-concat : (dir : Bytes) (c : ℕ) → is_sep c ≡ true → ends_in_sep (dir ++ (c ∷ [])) ≡ true
ends_in_sep-concat [] c h = h
ends_in_sep-concat (d ∷ []) c h = h
ends_in_sep-concat (d ∷ e ∷ es) c h = ends_in_sep-concat (e ∷ es) c h

all-append {ℓ} :
    {A : Type ℓ} (p : A → Bool) (xs ys : List A)
    → all p xs ≡ true
    → all p ys ≡ true
    → all p (xs ++ ys) ≡ true
all-append p [] ys h k = k
all-append p (x ∷ xs) ys h k = ground (arith, all-append p xs ys)

move_one :
    (open_name : Bytes) (c : ℕ) (cs : Bytes) → open_name ++ (c ∷ cs) ≡ (open_name ++ (c ∷ [])) ++ cs
move_one [] c cs = refl
move_one (o ∷ os) c cs = ap (◌∷◌ o) (move_one os c cs)

move_all :
    (dir open_name : Bytes) (c : ℕ) (cs : Bytes)
    → dir ++ (open_name ++ (c ∷ cs)) ≡ (dir ++ (open_name ++ (c ∷ []))) ++ cs
move_all dir open_name c cs =
    ap (λ z. dir ++ z) (move_one open_name c cs) ∙ sym (append_assoc dir (open_name ++ (c ∷ [])) cs)

-- The loop, where `dir` and the plain bytes of `open_name` have been read.
base_name_from-Splits :
    (dir open_name rest : Bytes)
    → ends_in_sep dir ≡ true
    → all (λ c. not (is_sep c)) open_name ≡ true
    → Splits (dir ++ (open_name ++ rest)) (base_name_from (open_name ++ rest) rest)
unfolding base_name_from
base_name_from-Splits dir open_name [] h k =
    rw (append-nil open_name) (record { dir = dir; joins = refl; dir_ends = h; name_plain = k })
base_name_from-Splits dir open_name (c ∷ cs) h k = elim (Bool-cases (is_sep c)) [
  | inl e ↦ rw e (
      rw (move_all dir open_name c cs) (
        base_name_from-Splits (dir ++ (open_name ++ (c ∷ []))) [] cs
          (rw (sym (append_assoc dir open_name (c ∷ [])))
            (ends_in_sep-concat (dir ++ open_name) c e))
          refl))
  | inr e ↦ rw e (
      rw (move_one open_name c cs) (
        base_name_from-Splits dir (open_name ++ (c ∷ [])) cs h
          (all-append (λ b. not (is_sep b)) open_name (c ∷ []) k (ground arith))))
]

-- The stored name is the path behind its last separator: what is cut off ends in a separator or is
-- empty, and the name holds no separator.
pub base_name-Splits : (path : Bytes) → Splits path (base_name path)
unfolding base_name
base_name-Splits path = base_name_from-Splits [] [] path refl refl
