-- ===== src/Cli/Put/Upload.antt =====
-- The bytes that `offs put` sends, in chunks (src/offs/commands/put.c).
use mathlib.Core.List.{flatten}
use offs.Base.{
  take-front, whole-front, ℕ, zero, suc, ◌-◌, ◌≤◌, Bool, true, false, List, [], ◌∷◌, ◌++◌, ltb,
  length, take, drop, all, All, Bytes, ◌≡◌, ◌∙◌, refl, sym, ap, arith, append_assoc, length-take,
  length-drop,
}
use offs.Cli.Put.{
  put_chunk_size, Round, read, unsent, read_error, end_of_file, Stream, got, send_chunk,
  send_chunks,
}

-- A prefix of the file is sent, in frames that are neither empty nor longer than a chunk.
pub record IsPartOf (frames : List Bytes) (file : Bytes) : Type 0 where
  pub kept : Bytes
  pub joins : file ≡ flatten frames ++ kept
  pub bounded : All (λ f. (1 ≤ length f) × (length f ≤ put_chunk_size)) frames

pub length-got : (n left : ℕ) (file : Bytes) → length (got n (take left file)) ≤ put_chunk_size
length-got n left file = omega (
  arith,
  length-take n (take put_chunk_size (take left file)),
  length-take put_chunk_size (take left file),
  length-take left file,
)

pub length-got_le : (n left : ℕ) (file : Bytes) → length (got n (take left file)) ≤ left
length-got_le n left file = omega (
  arith,
  length-take n (take put_chunk_size (take left file)),
  length-take put_chunk_size (take left file),
  length-take left file,
)

pub got-front :
    (n left : ℕ) (file : Bytes)
    → got n (take left file) ++ drop (length (got n (take left file))) file ≡ file
got-front n left file =
    take-front n (take put_chunk_size (take left file)) file (
      take-front put_chunk_size (take left file) file
        (take-front left file file (whole-front file)))

send_chunk-part :
    (chunk file : Bytes) (rest : Stream)
    → chunk ++ drop (length chunk) file ≡ file
    → length chunk ≤ put_chunk_size
    → IsPartOf rest.frames (drop (length chunk) file)
    → IsPartOf (send_chunk chunk rest).frames file
unfolding send_chunk flatten
send_chunk-part [] file rest h k p = record { kept = file; joins = refl; bounded = tt }
send_chunk-part (c ∷ cs) file rest h k p = record {
  kept = p.kept;
  joins =
      sym h
      ∙ ap (λ z. (c ∷ cs) ++ z) p.joins
      ∙ sym (append_assoc (c ∷ cs) (flatten rest.frames) p.kept);
  bounded = ((omega arith, k), p.bounded);
}

send_chunks-part :
    (rounds : List Round) (left : ℕ) (file : Bytes)
    → IsPartOf (send_chunks rounds left file).frames file
unfolding send_chunks flatten
send_chunks-part rounds zero file = record { kept = file; joins = refl; bounded = tt }
send_chunks-part [] (suc left) file = record { kept = file; joins = refl; bounded = tt }
send_chunks-part (read_error ∷ rounds) (suc left) file = record {
  kept = file;
  joins = refl;
  bounded = tt;
}
send_chunks-part (end_of_file ∷ rounds) (suc left) file = record {
  kept = file;
  joins = refl;
  bounded = tt;
}
send_chunks-part (unsent n ∷ rounds) (suc left) file = record {
  kept = file;
  joins = refl;
  bounded = tt;
}
send_chunks-part (read n ∷ rounds) (suc left) file =
    send_chunk-part (got n (take (suc left) file)) file _ (got-front n (suc left) file)
      (length-got n (suc left) file) (send_chunks-part rounds _ _)

-- Whatever fread gives and wherever sending stops, the data of the frames that were sent, in order,
-- is a prefix of the file, and no frame is empty or longer than a chunk.
pub send_chunks-IsPartOf :
    (rounds : List Round) (left : ℕ) (file : Bytes)
    → IsPartOf (send_chunks rounds left file).frames file
send_chunks-IsPartOf rounds left file = send_chunks-part rounds left file

abbrev pub is_read : Round → Bool
is_read (read n) = ltb 0 n
is_read _ = false

pub got-cons :
    (n left : ℕ) (x : ℕ) (xs : Bytes) → 1 ≤ length (got (suc n) (take (suc left) (x ∷ xs)))
got-cons n left x xs = omega arith

take-append-ge :
    (xs ys : Bytes) (n : ℕ) → length xs ≤ n → take n (xs ++ ys) ≡ xs ++ take (n - length xs) ys
take-append-ge [] ys n h = ground arith
take-append-ge (x ∷ xs) ys zero h = absurd (omega arith)
take-append-ge (x ∷ xs) ys (suc n) h = ground (arith, take-append-ge xs ys n (omega arith))

-- Everything is sent: the loop has ended without an error, behind `text`.
abbrev pub Sent : Stream → Bytes → Type 0
Sent s text = (flatten s.frames ≡ text) × ((s.had_error ≡ false) × (s.ended ≡ true))

send_chunk-Sent :
    (chunk file : Bytes) (left : ℕ) (rest : Stream)
    → 1 ≤ length chunk
    → length chunk ≤ left
    → chunk ++ drop (length chunk) file ≡ file
    → Sent rest (take (left - length chunk) (drop (length chunk) file))
    → Sent (send_chunk chunk rest) (take left file)
unfolding send_chunk flatten
send_chunk-Sent [] file left rest h l e r = absurd (omega arith)
send_chunk-Sent (c ∷ cs) file left rest h l e r = (
  ap (λ z. (c ∷ cs) ++ z) r.0
      ∙ sym (take-append-ge (c ∷ cs) (drop (length (c ∷ cs)) file) left l)
      ∙ ap (take left) e,
  r.1,
)

-- If every read gives something, there are as many rounds as bytes are left, and the file has that
-- many, the loop ends without an error, and what is sent is exactly those bytes of the file.
pub send_chunks_completes :
    (rounds : List Round) (left : ℕ) (file : Bytes)
    → all is_read rounds ≡ true
    → left ≤ length rounds
    → left ≤ length file
    → Sent (send_chunks rounds left file) (take left file)
unfolding send_chunks flatten
send_chunks_completes rounds zero file h k l = (refl, (refl, refl))
send_chunks_completes [] (suc left) file h k l = absurd (omega arith)
send_chunks_completes (read zero ∷ rounds) (suc left) file h k l = absurd (ground arith)
send_chunks_completes (read (suc n) ∷ rounds) (suc left) [] h k l = absurd (omega arith)
send_chunks_completes (read (suc n) ∷ rounds) (suc left) (x ∷ xs) h k l =
    let chunk = got (suc n) (take (suc left) (x ∷ xs)) in
    let ge = got-cons n left x xs in
    send_chunk-Sent (got (suc n) (take (suc left) (x ∷ xs))) (x ∷ xs) (suc left)
      (send_chunks rounds (suc left - length chunk) (drop (length chunk) (x ∷ xs))) ge
      (length-got_le (suc n) (suc left) (x ∷ xs)) (got-front (suc n) (suc left) (x ∷ xs))
      (send_chunks_completes rounds _ _ (ground arith) (omega (arith, ge)) (
        omega (
          arith,
          ge,
          length-drop (length (got (suc n) (take (suc left) (x ∷ xs)))) (x ∷ xs),
          length-got_le (suc n) (suc left) (x ∷ xs),
        )))
send_chunks_completes (unsent n ∷ rounds) (suc left) file h k l = absurd (ground arith)
send_chunks_completes (read_error ∷ rounds) (suc left) file h k l = absurd (ground arith)
send_chunks_completes (end_of_file ∷ rounds) (suc left) file h k l = absurd (ground arith)
