-- ===== src/Updater/Copy.antt =====
-- `_copy_file` of the updater (src/Updater/updater_main.c), whose result main ignores.
use offs.Base.{
  ℕ, zero, suc, Bool, true, false, Option, none, some, [], ◌∷◌, ◌++◌, Bytes, length, take, drop,
  ◌<◌, ◌≤◌, ◌≡◌, refl, sym, ap, ◌∙◌, arith, take-front, whole-front, length-take, length-append,
}

-- sizeof(buf)
unfoldable pub buf_size : ℕ
buf_size = 8192

-- What fread gives of the bytes left, as many as it says and at most the buffer's size.
unfoldable pub read_chunk : (Bytes → ℕ) → Bytes → Bytes
read_chunk fread file = take (fread file) (take buf_size file)

-- What a round adds to the destination, in front of what the rounds behind it add; a round without a
-- byte is the last. fwrite stores some of the bytes it is given.
unfoldable pub write_chunk : (Bytes → Bytes) → Bytes → Bytes → Bytes
write_chunk fwrite [] rest = []
write_chunk fwrite (c ∷ cs) rest = fwrite (c ∷ cs) ++ rest

module _ (fread : Bytes → ℕ) (fwrite : Bytes → Bytes) where
  -- The rounds of the loop, with the file from its position on.
  unfoldable pub copy_chunks : ℕ → Bytes → Bytes
  copy_chunks zero file = []
  copy_chunks (suc rounds) file =
      let chunk = read_chunk fread file in
      write_chunk fwrite chunk (copy_chunks rounds (drop (length chunk) file))

  -- With the source's bytes, where it is opened, and whether the destination is: whether the result
  -- is 0, and the destination's bytes.
  unfoldable pub copy_file : Option Bytes → Bool → Bool × Option Bytes
  copy_file none opens = (false, none)
  copy_file (some file) false = (false, none)
  copy_file (some file) true = (true, some (copy_chunks (suc (length file)) file))

read_chunk-append :
    (fread : Bytes → ℕ) (file : Bytes)
    → read_chunk fread file ++ drop (length (read_chunk fread file)) file ≡ file
unfolding read_chunk
read_chunk-append fread file =
    take-front (fread file) (take buf_size file) file
      (take-front buf_size file file (whole-front file))

length-read_chunk :
    (fread : Bytes → ℕ) (file : Bytes)
    → 1 ≤ fread file
    → 1 ≤ length file
    → 1 ≤ length (read_chunk fread file)
unfolding read_chunk buf_size
length-read_chunk fread file h k =
    omega (arith, length-take (fread file) (take buf_size file), length-take buf_size file)

write_chunk_whole :
    (chunk rest left file : Bytes)
    → chunk ++ left ≡ file
    → (1 ≤ length file → 1 ≤ length chunk)
    → (1 ≤ length chunk → rest ≡ left)
    → write_chunk (λ bytes. bytes) chunk rest ≡ file
unfolding write_chunk
write_chunk_whole [] rest left [] h k r = refl
write_chunk_whole [] rest left (x ∷ xs) h k r = absurd (omega (arith, k (omega arith)))
write_chunk_whole (c ∷ cs) rest left file h k r = ap (λ t. c ∷ cs ++ t) (r (omega arith)) ∙ h

-- A copy of the source where both files are opened, else nothing.
unfoldable pub both_opened : Option Bytes → Bool → Bool × Option Bytes
both_opened none opens = (false, none)
both_opened (some file) true = (true, some file)
both_opened (some file) false = (false, none)

module _ (fread : Bytes → ℕ) (reads : (file : Bytes) → 1 ≤ fread file) where
  copy_chunks_whole :
      (rounds : ℕ) (file : Bytes)
      → length file < rounds
      → copy_chunks fread (λ bytes. bytes) rounds file ≡ file
  unfolding copy_chunks
  copy_chunks_whole zero file h = absurd (omega arith)
  copy_chunks_whole (suc rounds) file h =
      let chunk = read_chunk fread file in
      let left = drop (length chunk) file in
      write_chunk_whole chunk (copy_chunks fread (λ bytes. bytes) rounds left) left file
        (read_chunk-append fread file) (length-read_chunk fread file (reads file))
        (λ k. copy_chunks_whole rounds left (
          omega (arith, sym (length-append chunk left) ∙ ap length (read_chunk-append fread file))))

  -- Where each fread of bytes that are left gives one at least, and fwrite stores all that it is
  -- given, `_copy_file` returns 0 exactly where both files are opened, and then the destination has
  -- the source's bytes; where it does not return 0 it has written none.
  pub copy_file_whole :
      (source : Option Bytes) (opens : Bool)
      → copy_file fread (λ bytes. bytes) source opens ≡ both_opened source opens
  unfolding copy_file both_opened
  copy_file_whole none opens = refl
  copy_file_whole (some file) false = refl
  copy_file_whole (some file) true =
      ap (λ b. (true, some b)) (copy_chunks_whole _ file (omega arith))
