-- ===== src/Cli/Transfer.antt =====
-- `_send_all` and `_recv_all` of src/offs/client.c: whole buffers over a socket that takes and gives
-- them in pieces. What the socket answers to the calls to come is a list.
pub mod Delivery
pub mod Reception
use offs.Base.{
  ℕ, zero, suc, ◌+◌, ◌-◌, ◌*◌, Bool, true, false, List, [], ◌∷◌, ◌++◌, leb, ◌==◌, if◌then◌else◌,
  length, take, drop, Bytes,
}

-- CLI_EAGAIN_BUDGET_MS; CLI_EAGAIN_RETRY_MS is 1.
abbrev pub eagain_budget : ℕ
eagain_budget = 30000

-- How a call of one of the two loops ends: with 0, with -1, or not while the list lasts.
pub data Ending : Type 0 where
  completed failed pending : Ending

-- One answer of `platform_socket_send`.
pub data Attempt : Type 0 where
  sent : ℕ → Attempt
  eintr eagain error : Attempt

pub record Sending : Type 0 where
  pub ending : Ending
  -- The bytes that the socket took.
  pub wire : Bytes
  -- What the socket has for later calls.
  pub later : List Attempt

abbrev pub sending : Ending → Bytes → List Attempt → Sending
sending e w l = record { ending = e; wire = w; later = l }

-- `left` is `data + bytes_sent`, up to `len`.
unfoldable pub send_all : List Attempt → ℕ → Bytes → Sending
send_all attempts eagain_ms [] = sending completed [] attempts
send_all [] eagain_ms (b ∷ bs) = sending pending [] []
send_all (eintr ∷ attempts) eagain_ms (b ∷ bs) = send_all attempts eagain_ms (b ∷ bs)
send_all (eagain ∷ attempts) eagain_ms (b ∷ bs) =
    let retry = send_all attempts (eagain_ms + 1) (b ∷ bs) in
    if leb eagain_budget eagain_ms then sending failed [] attempts else retry
send_all (error ∷ attempts) eagain_ms (b ∷ bs) = sending failed [] attempts
send_all (sent n ∷ attempts) eagain_ms (b ∷ bs) =
    let rest = send_all attempts 0 (drop n (b ∷ bs)) in
    sending rest.ending (take n (b ∷ bs) ++ rest.wire) rest.later

-- One answer of `platform_socket_recv`: bytes that are ready, of which a call takes what it asked
-- for. No bytes at all stand for the result 0 of a closed connection.
pub data Incoming : Type 0 where
  chunk : Bytes → Incoming
  eintr eagain error : Incoming

pub record Receiving : Type 0 where
  pub ending : Ending
  pub received : Bytes
  -- What the socket has for later calls.
  pub later : List Incoming

abbrev pub receiving : Ending → Bytes → List Incoming → Receiving
receiving e r l = record { ending = e; received = r; later = l }

-- `want` is `len - bytes_received`.
unfoldable pub recv_all : List Incoming → ℕ → ℕ → Receiving
recv_all answers eagain_ms zero = receiving completed [] answers
recv_all [] eagain_ms (suc want) = receiving pending [] []
recv_all (eintr ∷ answers) eagain_ms (suc want) = recv_all answers eagain_ms (suc want)
recv_all (eagain ∷ answers) eagain_ms (suc want) =
    let retry = recv_all answers (eagain_ms + 1) (suc want) in
    if leb eagain_budget eagain_ms then receiving failed [] answers else retry
recv_all (error ∷ answers) eagain_ms (suc want) = receiving failed [] answers
recv_all (chunk [] ∷ answers) eagain_ms (suc want) = receiving failed [] answers
recv_all (chunk (c ∷ cs) ∷ answers) eagain_ms (suc want) =
    let rest = recv_all answers 0 (suc want - length (c ∷ cs)) in
    if leb (length (c ∷ cs)) (suc want)
    then receiving rest.ending ((c ∷ cs) ++ rest.received) rest.later
    else receiving completed (take (suc want) (c ∷ cs)) (chunk (drop (suc want) (c ∷ cs)) ∷ answers)
