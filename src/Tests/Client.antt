-- ===== src/Tests/Client.antt =====
-- The transfers, and the client object.
use offs.Base.{true, some, List, [], ◌∷◌, Bytes, codes, ◌≡◌, refl, arith}
use offs.Cli.Transfer.{completed, Attempt, sent, send_all, Incoming, chunk}
use offs.Cli.Transfer.Delivery.{send_all_completes}
use offs.Cli.Transfer.Reception.{bytes_of}
use offs.Cli.Client.{
  Socket, Client, Wire, Reply, item, create, connect, disconnect, send_frame, recv_frame, send,
}
use offs.Cli.Client.Exchange.{recv_frame_framed}

abbrev tries : List Attempt
tries = Attempt.eintr ∷ sent 2 ∷ Attempt.eagain ∷ sent 9 ∷ sent 1 ∷ []

send_all_completes_example : (send_all tries 0 (codes "put")).ending ≡ completed
unfolding codes
send_all_completes_example =
    send_all_completes tries 0 (codes "put") refl (omega arith) (omega arith)

abbrev answers : List Incoming
answers =
    chunk (0 ∷ 0 ∷ [])
    ∷ Incoming.eagain
    ∷ chunk (0 ∷ 2 ∷ b'h' ∷ [])
    ∷ Incoming.eintr
    ∷ chunk (b'i' ∷ 7 ∷ [])
    ∷ []

abbrev socket : Socket
socket = record { attempts = tries; incoming = answers; wire = [] }

-- Items are the bytes themselves, and a frame is not wrapped.
abbrev wire : Wire Bytes
wire = record {
  local_connect = λ path. some socket;
  serialize = λ bytes. some bytes;
  frame_encode = λ bytes. some bytes;
  load = λ bytes. some bytes;
}

abbrev open_client : Client
open_client = record {
  socket = some socket;
  socket_path = some (codes "/run/offs");
  connected = true;
}

recv_frame_framed_example :
    ((recv_frame wire open_client).1 ≡ item (codes "hi"))
    × (later : List Incoming) × ((recv_frame wire open_client).0.socket
        ≡ some (record socket { incoming = later }))
    × (bytes_of later ≡ 7 ∷ [])
unfolding codes offs.Cli.Client.Exchange.frame_head
recv_frame_framed_example =
    recv_frame_framed wire open_client socket (codes "hi") (7 ∷ []) refl refl refl (omega arith)
      refl (omega arith) (omega arith)
