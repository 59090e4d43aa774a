-- ===== src/Cli/Transfer/Delivery.antt =====
-- What `_send_all` puts on the wire.
use offs.Base.{
  ℕ, zero, suc, ◌+◌, ◌≤◌, List, [], ◌∷◌, ◌++◌, leb, length, take, drop, Bytes, ◌≡◌, ◌∙◌, refl, sym,
  ap, inl, inr, Bool-cases, arith, append_assoc, take-append-drop, length-drop,
}
use offs.Cli.Transfer.{eagain_budget, completed, Attempt, sent, eintr, eagain, error, send_all}

-- Whatever the socket does, what it took is the front of the data, in order and once.
pub send_all_front :
    (attempts : List Attempt) (eagain_ms : ℕ) (left : Bytes)
    → (unsent : Bytes) × (left ≡ (send_all attempts eagain_ms left).wire ++ unsent)
unfolding send_all
send_all_front attempts eagain_ms [] = ([], refl)
send_all_front [] eagain_ms (b ∷ bs) = (b ∷ bs, refl)
send_all_front (eintr ∷ attempts) eagain_ms (b ∷ bs) = send_all_front attempts eagain_ms (b ∷ bs)
send_all_front (eagain ∷ attempts) eagain_ms (b ∷ bs) =
    let (unsent, e) = send_all_front attempts (eagain_ms + 1) (b ∷ bs) in
    elim (Bool-cases (leb eagain_budget eagain_ms)) [
      | inl over ↦ (b ∷ bs, ground arith)
      | inr under ↦ (unsent, ground arith)
    ]
send_all_front (error ∷ attempts) eagain_ms (b ∷ bs) = (b ∷ bs, refl)
send_all_front (sent n ∷ attempts) eagain_ms (b ∷ bs) =
    let (unsent, e) = send_all_front attempts 0 (drop n (b ∷ bs)) in
    (
      unsent,
      sym (take-append-drop n (b ∷ bs))
          ∙ ap (◌++◌ (take n (b ∷ bs))) e
          ∙ sym (append_assoc (take n (b ∷ bs)) _ unsent),
    )

-- If the call returns 0, the socket took all of the data.
pub send_all_completed :
    (attempts : List Attempt) (eagain_ms : ℕ) (left : Bytes)
    → (send_all attempts eagain_ms left).ending ≡ completed
    → (send_all attempts eagain_ms left).wire ≡ left
unfolding send_all
send_all_completed attempts eagain_ms [] h = refl
send_all_completed [] eagain_ms (b ∷ bs) h = cc
send_all_completed (eintr ∷ attempts) eagain_ms (b ∷ bs) h =
    send_all_completed attempts eagain_ms (b ∷ bs) h
send_all_completed (eagain ∷ attempts) eagain_ms (b ∷ bs) h =
    ground (arith, send_all_completed attempts (eagain_ms + 1) (b ∷ bs))
send_all_completed (error ∷ attempts) eagain_ms (b ∷ bs) h = cc
send_all_completed (sent n ∷ attempts) eagain_ms (b ∷ bs) h =
    ap (◌++◌ (take n (b ∷ bs))) (send_all_completed attempts 0 (drop n (b ∷ bs)) h)
    ∙ take-append-drop n (b ∷ bs)

-- Attempts without an error, with `waits` of them EAGAIN and `moves` of them that take something.
abbrev pub waits : List Attempt → ℕ
waits [] = 0
waits (eagain ∷ attempts) = suc (waits attempts)
waits (_ ∷ attempts) = waits attempts

abbrev pub moves : List Attempt → ℕ
moves [] = 0
moves (sent (suc n) ∷ attempts) = suc (moves attempts)
moves (_ ∷ attempts) = moves attempts

abbrev pub errors : List Attempt → ℕ
errors [] = 0
errors (error ∷ attempts) = suc (errors attempts)
errors (_ ∷ attempts) = errors attempts

-- With no error among the attempts, at most 30000 waits, those before included, and a byte taken
-- as often as there are bytes, the call returns 0.
pub send_all_completes :
    (attempts : List Attempt) (eagain_ms : ℕ) (left : Bytes)
    → errors attempts ≡ 0
    → eagain_ms + waits attempts ≤ eagain_budget
    → length left ≤ moves attempts
    → (send_all attempts eagain_ms left).ending ≡ completed
unfolding send_all
send_all_completes attempts eagain_ms [] e w m = refl
send_all_completes [] eagain_ms (b ∷ bs) e w m = elim m [ ]
send_all_completes (eintr ∷ attempts) eagain_ms (b ∷ bs) e w m =
    send_all_completes attempts eagain_ms (b ∷ bs) e w m
send_all_completes (eagain ∷ attempts) eagain_ms (b ∷ bs) e w m =
    ground (arith, send_all_completes attempts (eagain_ms + 1) (b ∷ bs))
send_all_completes (error ∷ attempts) eagain_ms (b ∷ bs) e w m = absurd (omega arith)
send_all_completes (sent zero ∷ attempts) eagain_ms (b ∷ bs) e w m =
    send_all_completes attempts 0 (b ∷ bs) e (omega arith) m
send_all_completes (sent (suc n) ∷ attempts) eagain_ms (b ∷ bs) e w m =
    send_all_completes attempts 0 (drop n bs) e (omega arith) (omega (arith, length-drop n bs))
