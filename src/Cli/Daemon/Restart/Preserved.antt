-- ===== src/Cli/Daemon/Restart/Preserved.antt =====
-- A restart preserves the flags of the daemon (src/offs/commands/start_stop.c).
use offs.Base.{
  ◌≤◌, Bool, true, false, not, some, List, [], ◌∷◌, ◌++◌, ◌==◌, take_all, all, length, Bytes, ◌≡◌,
  refl, sym, ap, ◌∙◌, arith, append_assoc, append-nil,
}
use offs.Cli.Daemon.Restart.{
  cmdline_size, split_words, behind_first, read_running_offsd_args, strip_foreground, start_argv,
}

-- A command line as the kernel shows it: each argument with a zero byte behind it.
abbrev pub join_words : List Bytes → Bytes
join_words [] = []
join_words (word ∷ words) = word ++ (0 ∷ join_words words)

-- An argument that is not empty and holds no zero byte.
abbrev pub is_word : Bytes → Bool
is_word [] = false
is_word (c ∷ cs) = all (λ b. not (b == 0)) (c ∷ cs)

split_words-word :
    (read word behind : Bytes)
    → all (λ b. not (b == 0)) word ≡ true
    → split_words read (word ++ (0 ∷ behind)) ≡ split_words (read ++ word) (0 ∷ behind)
unfolding split_words
split_words-word read [] behind h = ap (λ r. split_words r (0 ∷ behind)) (sym (append-nil read))
split_words-word read (c ∷ cs) behind h = ground (
  arith,
  split_words-word (read ++ (c ∷ [])) cs behind,
  ap (λ r. split_words r (0 ∷ behind)) (append_assoc read (c ∷ []) cs),
)

split_words-join_words :
    (words : List Bytes) → all is_word words ≡ true → split_words [] (join_words words) ≡ words
unfolding split_words
split_words-join_words [] h = refl
split_words-join_words ([] ∷ words) h = absurd (ground arith)
split_words-join_words ((c ∷ cs) ∷ words) h =
    split_words-word [] (c ∷ cs) (join_words words) (ground arith)
    ∙ ap (◌∷◌ (c ∷ cs)) (split_words-join_words words (ground arith))

-- If `offs restart` gets no arguments, and the command line of the running daemon, as the kernel
-- shows it, is of words that are not empty and fits the buffer, the daemon is started with exactly
-- the arguments that it had, less `--foreground`.
pub start_argv-preserved :
    (path : Bytes) (args : List Bytes)
    → all is_word (path ∷ args) ≡ true
    → length (join_words (path ∷ args)) ≤ cmdline_size
    → start_argv [] (some (join_words (path ∷ args))) ≡ strip_foreground args
unfolding start_argv read_running_offsd_args behind_first
start_argv-preserved path args h l = ap strip_foreground (
    ap (λ b. behind_first (split_words [] b)) (take_all cmdline_size (join_words (path ∷ args)) l)
    ∙ ap behind_first (split_words-join_words (path ∷ args) h))
