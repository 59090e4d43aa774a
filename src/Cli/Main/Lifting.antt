-- ===== src/Cli/Main/Lifting.antt =====
-- The options of `offs` that may stand anywhere on the command line.
use offs.Base.{
  Bool, true, not, ◌||◌, List, [], ◌∷◌, ◌++◌, all, Bytes, codes, str_eq, ◌≡◌, ◌∙◌, sym, ap, refl,
  arith,
}
use offs.Cli.Main.{Lifted, keep, lift_options, dispatch, main}

-- An argument that is neither `--socket` nor `--lang`.
abbrev pub is_plain : Bytes → Bool
is_plain arg = not (str_eq arg (codes "--socket") || str_eq arg (codes "--lang"))

abbrev prepend : List Bytes → Lifted → Lifted
prepend args l = record l { args = args ++ l.args }

lift_options-cons :
    (arg : Bytes) (argv : List Bytes) (socket lang : Bytes)
    → is_plain arg ≡ true
    → lift_options (arg ∷ argv) socket lang ≡ keep arg (lift_options argv socket lang)
unfolding lift_options keep
lift_options-cons arg [] socket lang h = ground arith
lift_options-cons arg (value ∷ argv) socket lang h = ground arith

lift_options-append :
    (front argv : List Bytes) (socket lang : Bytes)
    → all is_plain front ≡ true
    → lift_options (front ++ argv) socket lang ≡ prepend front (lift_options argv socket lang)
unfolding keep
lift_options-append [] argv socket lang h = refl
lift_options-append (arg ∷ front) argv socket lang h =
    lift_options-cons arg (front ++ argv) socket lang (ground arith)
    ∙ ap (keep arg) (lift_options-append front argv socket lang (ground arith))

-- `--socket` with its path can stand anywhere among the command and its arguments: the program does
-- the same as if it stood first.
pub main-socket :
    (connects : Bytes → Bool) (default_socket lang path : Bytes) (front behind : List Bytes)
    → all is_plain front ≡ true
    → main connects default_socket lang (front ++ (codes "--socket" ∷ path ∷ behind))
      ≡ main connects default_socket lang (codes "--socket" ∷ path ∷ (front ++ behind))
unfolding main lift_options str_eq codes
main-socket connects default_socket lang path front behind h =
    ap (λ l. dispatch connects l.socket_path l.args)
      (lift_options-append front (codes "--socket" ∷ path ∷ behind) default_socket lang h
        ∙ sym (lift_options-append front behind path lang h))

-- No argument that a command gets is `--socket` or `--lang`.
pub lift_options-plain :
    (argv : List Bytes) (socket lang : Bytes)
    → all is_plain (lift_options argv socket lang).args ≡ true
unfolding lift_options keep
lift_options-plain [] socket lang = refl
lift_options-plain (arg ∷ []) socket lang = ground arith
lift_options-plain (arg ∷ value ∷ argv) socket lang = ground (
  arith,
  lift_options-plain argv value lang,
  lift_options-plain argv socket value,
  lift_options-plain (value ∷ argv) socket lang,
)
