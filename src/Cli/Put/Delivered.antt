-- ===== src/Cli/Put/Delivered.antt =====
-- What an upload without an error has sent (src/offs/commands/put.c).
use mathlib.Core.List.{flatten}
use offs.Base.{
  ℕ, zero, suc, ◌-◌, ◌≤◌, Bool, true, false, not, List, [], ◌∷◌, ◌++◌, ltb, any, length, take, drop,
  Bytes, ◌≡◌, refl, ap, arith, length-drop, subst,
}
use offs.Cli.Put.{
  put_chunk_size, Round, read, unsent, read_error, end_of_file, Stream, got, send_chunk,
  send_chunks,
}
use offs.Cli.Put.Upload.{length-got, got-front, got-cons}

-- The rounds send a file in these frames: each read gives a chunk of what is left, which is sent,
-- until nothing is left or a read finds the end of the file. A read or a frame that fails sends
-- nothing in this sense.
pub data Delivers : List Round → Bytes → List Bytes → Type 0 where
  all_sent : {rounds : List Round} → Delivers rounds [] []
  at_end : {rounds : List Round} {file : Bytes} → Delivers (end_of_file ∷ rounds) file []
  nothing_read : {rounds : List Round} {file : Bytes} → Delivers (read zero ∷ rounds) file []
  sent :
      {n : ℕ} {rounds : List Round} {chunk rest : Bytes} {frames : List Bytes}
      → 1 ≤ length chunk
      → length chunk ≤ put_chunk_size
      → Delivers rounds rest frames
      → Delivers (read n ∷ rounds) (chunk ++ rest) (chunk ∷ frames)

-- Whether a round finds the end of the file.
unfoldable pub finds_end : Round → Bool
finds_end (read n) = not (ltb 0 n)
finds_end end_of_file = true
finds_end (unsent n) = false
finds_end read_error = false

-- No round finds an early end, so the frames have the whole file.
pub Delivers-whole :
    {rounds : List Round} {file : Bytes} {frames : List Bytes}
    → Delivers rounds file frames
    → any finds_end rounds ≡ false
    → flatten frames ≡ file
unfolding finds_end flatten
Delivers-whole all_sent h = refl
Delivers-whole at_end h = absurd (ground arith)
Delivers-whole nothing_read h = absurd (ground arith)
Delivers-whole (sent {chunk} k l d) h = ap (λ z. chunk ++ z) (Delivers-whole d (ground arith))

send_chunk-Delivers :
    (n : ℕ) (rounds : List Round) (chunk file : Bytes) (rest : Stream)
    → 1 ≤ length chunk
    → length chunk ≤ put_chunk_size
    → chunk ++ drop (length chunk) file ≡ file
    → (rest.had_error ≡ false
        → rest.ended ≡ true
        → Delivers rounds (drop (length chunk) file) rest.frames)
    → (send_chunk chunk rest).had_error ≡ false
    → (send_chunk chunk rest).ended ≡ true
    → Delivers (read n ∷ rounds) file (send_chunk chunk rest).frames
unfolding send_chunk
send_chunk-Delivers n rounds [] file rest h l e d f g = absurd (omega arith)
send_chunk-Delivers n rounds (c ∷ cs) file rest h l e d f g =
    subst (λ z. Delivers (read n ∷ rounds) z ((c ∷ cs) ∷ rest.frames)) e (sent h l (d f g))

pub send_chunks-Delivers :
    (rounds : List Round) (left : ℕ) (file : Bytes)
    → left ≡ length file
    → (send_chunks rounds left file).had_error ≡ false
    → (send_chunks rounds left file).ended ≡ true
    → Delivers rounds file (send_chunks rounds left file).frames
unfolding send_chunks
send_chunks-Delivers rounds zero [] h e d = all_sent
send_chunks-Delivers rounds zero (x ∷ xs) h e d = absurd (omega arith)
send_chunks-Delivers [] (suc left) file h e d = absurd (ground arith)
send_chunks-Delivers (read_error ∷ rounds) (suc left) file h e d = absurd (ground arith)
send_chunks-Delivers (end_of_file ∷ rounds) (suc left) file h e d = at_end
send_chunks-Delivers (unsent n ∷ rounds) (suc left) file h e d = absurd (ground arith)
send_chunks-Delivers (read zero ∷ rounds) (suc left) file h e d = nothing_read
send_chunks-Delivers (read (suc n) ∷ rounds) (suc left) [] h e d = absurd (omega arith)
send_chunks-Delivers (read (suc n) ∷ rounds) (suc left) (x ∷ xs) h e d =
    send_chunk-Delivers (suc n) rounds (got (suc n) (take (suc left) (x ∷ xs))) (x ∷ xs)
      (send_chunks rounds (suc left - length (got (suc n) (take (suc left) (x ∷ xs))))
        (drop (length (got (suc n) (take (suc left) (x ∷ xs)))) (x ∷ xs)))
      (got-cons n left x xs) (length-got (suc n) (suc left) (x ∷ xs))
      (got-front (suc n) (suc left) (x ∷ xs))
      (send_chunks-Delivers rounds _ _
        (omega (arith, length-drop (length (got (suc n) (take (suc left) (x ∷ xs)))) (x ∷ xs))))
      e d
