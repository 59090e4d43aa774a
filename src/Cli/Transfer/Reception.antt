-- ===== src/Cli/Transfer/Reception.antt =====
-- What `_recv_all` takes from the socket.
use offs.Base.{
  ℕ, zero, suc, ◌+◌, ◌-◌, ◌≤◌, ◌<◌, List, [], ◌∷◌, ◌++◌, leb, length, take, drop, Bytes, ◌≡◌, ◌∙◌,
  refl, sym, ap, inl, inr, Bool-cases, arith, append_assoc, take-append-drop, length-take,
  length-append,
}
use offs.Cli.Transfer.{
  eagain_budget, completed, Incoming, chunk, eintr, eagain, error, Receiving, recv_all,
}

-- The bytes that the answers hold, in order.
abbrev pub bytes_of : List Incoming → Bytes
bytes_of [] = []
bytes_of (chunk bs ∷ answers) = bs ++ bytes_of answers
bytes_of (_ ∷ answers) = bytes_of answers

abbrev pub waits : List Incoming → ℕ
waits [] = 0
waits (eagain ∷ answers) = suc (waits answers)
waits (_ ∷ answers) = waits answers

-- Neither an error nor the end of the connection is among the answers.
abbrev pub breaks : List Incoming → ℕ
breaks [] = 0
breaks (error ∷ answers) = suc (breaks answers)
breaks (chunk [] ∷ answers) = suc (breaks answers)
breaks (_ ∷ answers) = breaks answers

-- The bytes that were received and those that are left make up the answers' bytes.
pub record Took (answers : List Incoming) (want : ℕ) (r : Receiving) : Type 0 where
  pub front : bytes_of answers ≡ r.received ++ bytes_of r.later
  pub length_is : length r.received ≡ want

-- A call that returns 0 took exactly the bytes that it wanted, the first ones, and leaves the
-- others where they are.
pub recv_all-Took :
    (answers : List Incoming) (eagain_ms want : ℕ)
    → (recv_all answers eagain_ms want).ending ≡ completed
    → Took answers want (recv_all answers eagain_ms want)
unfolding recv_all
recv_all-Took answers eagain_ms zero h = record { front = refl; length_is = refl }
recv_all-Took [] eagain_ms (suc want) h = cc
recv_all-Took (eintr ∷ answers) eagain_ms (suc want) h =
    let t = recv_all-Took answers eagain_ms (suc want) h in
    record { front = t.front; length_is = t.length_is }
recv_all-Took (eagain ∷ answers) eagain_ms (suc want) h =
    elim (Bool-cases (leb eagain_budget eagain_ms)) [
      | inl over ↦ ground arith
      | inr under ↦
          let t = recv_all-Took answers (eagain_ms + 1) (suc want) (ground arith) in
          record { front = ground (arith, t.front); length_is = ground (arith, t.length_is) }
    ]
recv_all-Took (error ∷ answers) eagain_ms (suc want) h = cc
recv_all-Took (chunk [] ∷ answers) eagain_ms (suc want) h = cc
recv_all-Took (chunk (c ∷ cs) ∷ answers) eagain_ms (suc want) h =
    elim (Bool-cases (leb (length (c ∷ cs)) (suc want))) [
      | inl whole ↦
          let t = recv_all-Took answers 0 (suc want - length (c ∷ cs)) (ground arith) in
          rw whole (record {
            front = ap (◌∷◌ c) (ap (◌++◌ cs) t.front ∙ sym (append_assoc cs _ _));
            length_is = ground (
              arith,
              t.length_is,
              length-append (c ∷ cs) (recv_all answers 0 (suc want - length (c ∷ cs))).received,
            );
          })
      | inr part ↦ rw part (record {
        front =
            ap (λ bs. c ∷ (bs ++ bytes_of answers)) (sym (take-append-drop want cs))
            ∙ append_assoc (c ∷ take want cs) (drop want cs) (bytes_of answers);
        length_is = ground (arith, length-take want cs);
      })
    ]

-- With no break among the answers and at most 30000 waits, those before included, a call for bytes
-- that are there returns 0.
pub recv_all_completes :
    (answers : List Incoming) (eagain_ms want : ℕ)
    → breaks answers ≡ 0
    → eagain_ms + waits answers ≤ eagain_budget
    → want ≤ length (bytes_of answers)
    → (recv_all answers eagain_ms want).ending ≡ completed
unfolding recv_all
recv_all_completes answers eagain_ms zero b w m = refl
recv_all_completes [] eagain_ms (suc want) b w m = elim m [ ]
recv_all_completes (eintr ∷ answers) eagain_ms (suc want) b w m =
    recv_all_completes answers eagain_ms (suc want) b w m
recv_all_completes (eagain ∷ answers) eagain_ms (suc want) b w m =
    ground (arith, recv_all_completes answers (eagain_ms + 1) (suc want))
recv_all_completes (error ∷ answers) eagain_ms (suc want) b w m = absurd (omega arith)
recv_all_completes (chunk [] ∷ answers) eagain_ms (suc want) b w m = absurd (omega arith)
recv_all_completes (chunk (c ∷ cs) ∷ answers) eagain_ms (suc want) b w m = ground (
  arith,
  length-append cs (bytes_of answers),
  recv_all_completes answers 0 (suc want - length (c ∷ cs)),
)

breaks-drop :
    (n : ℕ) (bs : Bytes) (answers : List Incoming)
    → n < length bs
    → breaks (chunk (drop n bs) ∷ answers) ≡ breaks answers
breaks-drop n [] answers h = elim h [ ]
breaks-drop zero (b ∷ bs) answers h = refl
breaks-drop (suc n) (b ∷ bs) answers h = breaks-drop n bs answers (omega arith)

waits-drop :
    (n : ℕ) (bs : Bytes) (answers : List Incoming)
    → waits (chunk (drop n bs) ∷ answers) ≡ waits answers
waits-drop n bs answers = refl

-- A call leaves no more waits than there were, and no break where there was none.
pub recv_all-later :
    (answers : List Incoming) (eagain_ms want : ℕ)
    → breaks answers ≡ 0
    → (breaks (recv_all answers eagain_ms want).later ≡ 0)
      × (waits (recv_all answers eagain_ms want).later ≤ waits answers)
unfolding recv_all
recv_all-later answers eagain_ms zero b = (b, omega arith)
recv_all-later [] eagain_ms (suc want) b = (refl, omega arith)
recv_all-later (eintr ∷ answers) eagain_ms (suc want) b =
    recv_all-later answers eagain_ms (suc want) b
recv_all-later (eagain ∷ answers) eagain_ms (suc want) b =
    ground (arith, recv_all-later answers (eagain_ms + 1) (suc want))
recv_all-later (error ∷ answers) eagain_ms (suc want) b = absurd (omega arith)
recv_all-later (chunk [] ∷ answers) eagain_ms (suc want) b = absurd (omega arith)
recv_all-later (chunk (c ∷ cs) ∷ answers) eagain_ms (suc want) b =
    ground
      (arith, breaks-drop want cs answers, recv_all-later answers 0 (suc want - length (c ∷ cs)))
