-- ===== src/Cli/Client.antt =====
-- The client object of src/offs/client.c: the connection, and frames in both directions. Sockets
-- are opened, and items encoded and decoded, by code outside the repository.
pub mod Connection
pub mod Exchange
use offs.Base.{
  ℕ, ◌+◌, ◌*◌, Bool, true, false, ◌&&◌, ◌||◌, not, Option, none, some, List, [], ◌∷◌, ◌++◌, ltb,
  ◌==◌, if◌then◌else◌, length, Bytes,
}
use offs.Cli.Transfer.{
  Ending, completed, failed, pending, Attempt, Sending, send_all, Incoming, Receiving, recv_all,
}

-- MAX_RESPONSE_SIZE
abbrev pub max_response_size : ℕ
max_response_size = 16 * 1024 * 1024

-- What an open socket will answer, and the bytes that it took.
pub record Socket : Type 0 where
  pub attempts : List Attempt
  pub incoming : List Incoming
  pub wire : Bytes

pub record Client : Type 0 where
  pub socket : Option Socket
  pub socket_path : Option Bytes
  pub connected : Bool

-- The code outside: `platform_local_connect`, `cbor_serialize_alloc` followed by
-- `stream_frame_encode` (`none` where either gives nothing), and `cbor_load` (`none` for no item
-- or an error).
pub record Wire (Item : Type 0) : Type 0 where
  pub local_connect : Bytes → Option Socket
  pub serialize : Item → Option Bytes
  pub frame_encode : Bytes → Option Bytes
  pub load : Bytes → Option Item

-- The results of `cli_client_recv_frame`: an item, NULL, or no return while the socket's answers
-- last.
pub data Reply (Item : Type 0) : Type 0 where
  item : Item → Reply Item
  null : Reply Item
  waiting : Reply Item

-- cli_client_create
unfoldable pub create : Option Bytes → Client
create path = record { socket = none; socket_path = path; connected = false }

-- cli_client_disconnect, for a client that is not NULL
unfoldable pub disconnect : Client → Client
disconnect c = record c { socket = none; connected = false }

-- The length that the four bytes of a frame's head stand for.
unfoldable pub frame_length : Bytes → ℕ
frame_length (b0 ∷ b1 ∷ b2 ∷ b3 ∷ _) = b0 * 16777216 + b1 * 65536 + b2 * 256 + b3
frame_length _ = 0

module _ {Item : Type 0} (W : Wire Item) where
  connect_to : Client → Option Bytes → Client × Bool
  connect_to c none = (c, false)
  connect_to c (some path) = if c.connected then (c, true) else elim (W.local_connect path) [
    | none ↦ (c, false)
    | some s ↦ (record c { socket = some s; connected = true }, true)
  ]

  -- cli_client_connect: the client, and whether the result is 0.
  unfoldable pub connect : Client → Client × Bool
  unfolding connect_to
  connect c = connect_to c c.socket_path

  -- `_send_all` on the open socket.
  transmit : Client → Socket → Bytes → Client × Ending
  transmit c s framed =
      let r = send_all s.attempts 0 framed in
      (
        record c { socket = some (record s { attempts = r.later; wire = s.wire ++ r.wire }) },
        r.ending,
      )

  -- The bytes of a frame; `none` is a return of -1.
  abbrev pub framed_bytes : Item → Option Bytes
  framed_bytes i = elim (W.serialize i) [ none ↦ none | some cbor ↦ W.frame_encode cbor ]

  send_item : Client → Option Socket → Item → Client × Ending
  send_item c none i = (c, failed)
  send_item c (some s) i = elim (framed_bytes i) [
    | none ↦ (c, failed)
    | some framed ↦ transmit c s framed
  ]

  -- cli_client_send_frame; the frame is `none` where its encoder gave NULL.
  unfoldable pub send_frame : Client → Option Item → Client × Ending
  unfolding transmit send_item
  send_frame c none = (c, failed)
  send_frame c (some i) = if c.connected then send_item c c.socket i else (c, failed)

  keep_incoming : Client → Socket → List Incoming → Client
  keep_incoming c s later = record c { socket = some (record s { incoming = later }) }

  load_reply : Option Item → Reply Item
  load_reply none = null
  load_reply (some i) = item i

  -- The second `_recv_all`, and `cbor_load`.
  recv_body : Client → Socket → List Incoming → ℕ → Client × Reply Item
  recv_body c s answers response_len =
      let r = recv_all answers 0 response_len in
      let c' = keep_incoming c s r.later in
      elim r.ending [
        | completed ↦ (c', load_reply (W.load r.received))
        | failed ↦ (c', null)
        | pending ↦ (c', waiting)
      ]

  recv_from : Client → Socket → Client × Reply Item
  recv_from c s =
      let r = recv_all s.incoming 0 4 in
      let c' = keep_incoming c s r.later in
      let n = frame_length r.received in
      elim r.ending [
        | completed ↦
            if n == 0 || ltb max_response_size n then (c', null) else recv_body c s r.later n
        | failed ↦ (c', null)
        | pending ↦ (c', waiting)
      ]

  recv_open : Client → Option Socket → Client × Reply Item
  recv_open c none = (c, null)
  recv_open c (some s) = if c.connected then recv_from c s else (c, null)

  -- cli_client_recv_frame
  unfoldable pub recv_frame : Client → Client × Reply Item
  unfolding keep_incoming load_reply recv_body recv_from recv_open
  recv_frame c = recv_open c c.socket

  -- cli_client_send
  unfoldable pub send : Client → Option Item → Client × Reply Item
  send c request =
      let (c', sent_ending) = send_frame c request in
      elim sent_ending [ completed ↦ recv_frame c' | failed ↦ (c', null) | pending ↦ (c', waiting) ]
