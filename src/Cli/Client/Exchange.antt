-- ===== src/Cli/Client/Exchange.antt =====
-- What `cli_client_recv_frame` gives for a frame that arrives in pieces.
use offs.Base.{
  ℕ, ◌/◌, ◌%◌, ◌≤◌, ◌<◌, true, Option, none, some, List, [], ◌∷◌, ◌++◌, length, Bytes, ◌≡◌, ◌∙◌,
  refl, sym, ap, arith, length-append,
}
use offs.Cli.Transfer.{completed, Incoming, recv_all, eagain_budget}
use offs.Cli.Transfer.Reception.{
  bytes_of, waits, breaks, recv_all-Took, recv_all-later, recv_all_completes,
}
use offs.Cli.Client.{
  max_response_size, Socket, Client, Wire, Reply, item, null, frame_length, recv_frame,
}

-- The head of a frame: its length in four bytes, the highest first.
unfoldable pub frame_head : ℕ → Bytes
frame_head n = n / 16777216 % 256 ∷ n / 65536 % 256 ∷ n / 256 % 256 ∷ n % 256 ∷ []

frame_length-frame_head : (n : ℕ) → n ≤ max_response_size → frame_length (frame_head n) ≡ n
unfolding frame_length frame_head
frame_length-frame_head n h = omega arith

-- A split of a list is fixed by the length of its front.
append-injective {ℓ} :
    {A : Type ℓ} (xs ys : List A) {us vs : List A}
    → length xs ≡ length ys
    → xs ++ us ≡ ys ++ vs
    → (xs ≡ ys) × (us ≡ vs)
append-injective [] [] l e = (refl, e)
append-injective [] (y ∷ ys) l e = absurd (omega arith)
append-injective (x ∷ xs) [] l e = absurd (omega arith)
append-injective (x ∷ xs) (y ∷ ys) l e =
    let r = append-injective xs ys (omega arith) (cc) in (cc r.0, r.1)

-- Among answers with no break and few waits, a call takes the front that it wants.
record TakesFront (answers : List Incoming) (front more : Bytes) : Type 0 where
  ends : (recv_all answers 0 (length front)).ending ≡ completed
  takes : (recv_all answers 0 (length front)).received ≡ front
  leaves : bytes_of (recv_all answers 0 (length front)).later ≡ more
  unbroken : breaks (recv_all answers 0 (length front)).later ≡ 0
  patient : waits (recv_all answers 0 (length front)).later ≤ eagain_budget

recv_all-TakesFront :
    (answers : List Incoming) (front more : Bytes)
    → breaks answers ≡ 0
    → waits answers ≤ eagain_budget
    → bytes_of answers ≡ front ++ more
    → TakesFront answers front more
recv_all-TakesFront answers front more b w e =
    let ends =
      recv_all_completes answers 0 (length front) b (omega arith)
        (omega (arith, ap length e, length-append front more)) in
    let took = recv_all-Took answers 0 (length front) ends in
    let parts = append-injective _ front took.length_is (sym took.front ∙ e) in
    let later = recv_all-later answers 0 (length front) b in
    record {
      ends = ends;
      takes = parts.0;
      leaves = parts.1;
      unbroken = later.0;
      patient = omega (arith, later.1);
    }

-- What the caller gets for the bytes of one item.
abbrev pub loaded : {Item : Type 0} → Option Item → Reply Item
loaded none = null
loaded (some i) = item i

-- A client that is connected, where the bytes to come are a frame with a payload of 1 byte to
-- 16 MiB and then more, in whatever pieces and with interruptions and at most 30000 waits: the
-- item of exactly that payload is returned, and the bytes that follow stay for the next call.
pub recv_frame_framed :
    {Item : Type 0} (W : Wire Item) (c : Client) (s : Socket) (payload more : Bytes)
    → c.connected ≡ true
    → c.socket ≡ some s
    → breaks s.incoming ≡ 0
    → waits s.incoming ≤ eagain_budget
    → bytes_of s.incoming ≡ frame_head (length payload) ++ (payload ++ more)
    → 0 < length payload
    → length payload ≤ max_response_size
    → ((recv_frame W c).1 ≡ loaded (W.load payload))
      × (later : List Incoming) × ((recv_frame W c).0.socket ≡ some (record s { incoming = later }))
      × (bytes_of later ≡ more)
unfolding recv_frame frame_head
recv_frame_framed W c s payload more k so b w e p m =
    let head =
      recv_all-TakesFront s.incoming (frame_head (length payload)) (payload ++ more) b w e in
    let answers = (recv_all s.incoming 0 4).later in
    let body = recv_all-TakesFront answers payload more head.unbroken head.patient head.leaves in
    (
      ground (
        arith,
        head.ends,
        head.takes,
        body.ends,
        body.takes,
        frame_length-frame_head (length payload) m,
      ),
      (recv_all answers 0 (length payload)).later,
      ground (
        arith,
        head.ends,
        head.takes,
        body.ends,
        body.takes,
        frame_length-frame_head (length payload) m,
      ),
      body.leaves,
    )
