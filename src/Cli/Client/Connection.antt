-- ===== src/Cli/Client/Connection.antt =====
-- A client is connected exactly when it has a socket.
use offs.Base.{true, ◌↔◌, ◌≢◌, Option, none, some, Bytes, ◌≡◌, arith}
use offs.Cli.Client.{Client, Wire, create, connect, disconnect, send_frame, recv_frame, send}

pub record IsConsistent (c : Client) : Type 0 where
  pub has_socket : (c.connected ≡ true) ↔ (c.socket ≢ none)

create-IsConsistent : (path : Option Bytes) → IsConsistent (create path)
unfolding create
create-IsConsistent path = ground arith

disconnect-IsConsistent : (c : Client) → IsConsistent (disconnect c)
unfolding disconnect
disconnect-IsConsistent c = ground arith

module _ {Item : Type 0} (W : Wire Item) (c : Client) (h : IsConsistent c) where
  connect-IsConsistent : IsConsistent (connect W c).0
  unfolding connect
  connect-IsConsistent = ground arith

  send_frame-IsConsistent : (request : Option Item) → IsConsistent (send_frame W c request).0
  unfolding send_frame
  send_frame-IsConsistent none = h
  send_frame-IsConsistent (some i) = ground arith

  recv_frame-IsConsistent : IsConsistent (recv_frame W c).0
  unfolding recv_frame
  recv_frame-IsConsistent = ground arith

send-IsConsistent :
    {Item : Type 0} (W : Wire Item) (c : Client)
    → IsConsistent c
    → (request : Option Item) → IsConsistent (send W c request).0
unfolding send
send-IsConsistent W c h request =
    let sent = send_frame-IsConsistent W c h request in
    let answered = recv_frame-IsConsistent W (send_frame W c request).0 sent in
    ground (arith, sent, answered)

-- Every operation keeps the flag and the socket together: if a client was marked as connected
-- exactly when it had a socket, so it is behind the operation, whatever the socket answers; and a
-- new client is.
pub client-IsConsistent :
    {Item : Type 0} (W : Wire Item) (c : Client) (path : Option Bytes) (request : Option Item)
    → IsConsistent c
    → IsConsistent (create path)
      × IsConsistent (connect W c).0
      × IsConsistent (send_frame W c request).0
      × IsConsistent (recv_frame W c).0
      × IsConsistent (send W c request).0
      × IsConsistent (disconnect c)
client-IsConsistent W c path request h = (
  create-IsConsistent path,
  connect-IsConsistent W c h,
  send_frame-IsConsistent W c h request,
  recv_frame-IsConsistent W c h,
  send-IsConsistent W c h request,
  disconnect-IsConsistent c,
)
