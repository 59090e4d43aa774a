-- ===== src/Cli/Calls/Peers.antt =====
-- `offs peer` and `offs friend` (src/offs/commands/peer.c and friend.c).
use offs.Base.{ℕ, Bool, Option, none, some, List, [], ◌∷◌, Bytes, codes, str_eq, if◌then◌else◌}
use offs.Cli.Cache.Gc.{ReadResult, io_error, empty, too_large, text_read}
use offs.Cli.Calls.{
  Request, peer_info, peer_connect, friend_add, friend_remove, peer_list, friend_list, Reply,
  unencoded, unanswered, error_frame, other_frame, undecoded, answered, World, Run, no_call,
  read_file_contents,
}

-- The test of a response for which only an error frame counts as a failure.
unfoldable pub loose_status : Reply → ℕ
loose_status unencoded = 1
loose_status unanswered = 1
loose_status error_frame = 1
loose_status other_frame = 0
loose_status undecoded = 0
loose_status (answered status) = 0

unfoldable pub loose_call : World → Request → Run
loose_call W request = record { status = loose_status (W.reply request); requests = request ∷ [] }

-- A list whose response is printed if it comes, with the status 0 in any case.
unfoldable pub blind_call : World → Request → Run
blind_call W request = record { status = 0; requests = request ∷ [] }

-- What is to be said of a peer: an image in a file, format 2, or a text.
unfoldable pub send_image : World → (ℕ → Bytes → Request) → ReadResult → Run
send_image W make io_error = no_call 1
send_image W make empty = no_call 1
send_image W make too_large = no_call 1
send_image W make (text_read contents) = loose_call W (make 2 contents)

-- The arguments behind `connect` and `add`, and the format of a text.
unfoldable pub send_peer : World → (ℕ → Bytes → Request) → ℕ → List Bytes → Run
send_peer W make text_format [] = no_call 1
send_peer W make text_format (arg ∷ []) =
    if str_eq arg (codes "--qr") then no_call 1 else loose_call W (make text_format arg)
send_peer W make text_format (arg ∷ path ∷ argv) =
    if str_eq arg (codes "--qr")
    then send_image W make (read_file_contents (W.open_file path))
    else loose_call W (make text_format arg)

-- The flags of `peer info`: the path of an image; `none` for a usage error.
unfoldable pub parse_info : List Bytes → Option Bytes → Option (Option Bytes)
parse_info [] qr_path = some qr_path
parse_info (arg ∷ []) qr_path = none
parse_info (arg ∷ value ∷ argv) qr_path =
    let rest = parse_info argv (some value) in if str_eq arg (codes "--qr") then rest else none

abbrev pub format_of : Option Bytes → ℕ
format_of none = 0
format_of (some path) = 2

-- Whether what was answered is shown.
unfoldable pub shows_info : World → Option Bytes → Bool
shows_info W none = W.encodes_text
shows_info W (some path) = W.writes path

unfoldable pub info_status : World → Option Bytes → Reply → ℕ
info_status W qr_path unencoded = 1
info_status W qr_path unanswered = 1
info_status W qr_path error_frame = 1
info_status W qr_path other_frame = 1
info_status W qr_path undecoded = 1
info_status W qr_path (answered status) = if shows_info W qr_path then 0 else 1

unfoldable pub run_info : World → Option (Option Bytes) → Run
run_info W none = no_call 1
run_info W (some qr_path) = record {
  status = info_status W qr_path (W.reply (peer_info (format_of qr_path)));
  requests = peer_info (format_of qr_path) ∷ [];
}

pub data PeerWord : Type 0 where
  info_word list_word connect_word unknown_word : PeerWord

unfoldable pub peer_word : Bytes → PeerWord
peer_word arg =
    if str_eq arg (codes "info")
    then info_word
    else if str_eq arg (codes "list")
    then list_word
    else if str_eq arg (codes "connect")
    then connect_word
    else unknown_word

unfoldable pub run_peer : World → PeerWord → List Bytes → Run
run_peer W info_word argv = run_info W (parse_info argv none)
run_peer W list_word argv = blind_call W peer_list
run_peer W connect_word argv = send_peer W peer_connect 1 argv
run_peer W unknown_word argv = no_call 1

unfoldable pub cmd_peer : World → List Bytes → Run
cmd_peer W [] = no_call 1
cmd_peer W (subcommand ∷ argv) = run_peer W (peer_word subcommand) argv

pub data FriendWord : Type 0 where
  add_word remove_word friends_word bad_word : FriendWord

unfoldable pub friend_word : Bytes → FriendWord
friend_word arg =
    if str_eq arg (codes "add")
    then add_word
    else if str_eq arg (codes "remove")
    then remove_word
    else if str_eq arg (codes "list")
    then friends_word
    else bad_word

unfoldable pub remove_friend : World → List Bytes → Run
remove_friend W [] = no_call 1
remove_friend W (id ∷ argv) = loose_call W (friend_remove id)

unfoldable pub run_friend : World → FriendWord → List Bytes → Run
run_friend W add_word argv = send_peer W friend_add 0 argv
run_friend W remove_word argv = remove_friend W argv
run_friend W friends_word argv = blind_call W friend_list
run_friend W bad_word argv = no_call 1

unfoldable pub cmd_friend : World → List Bytes → Run
cmd_friend W [] = no_call 1
cmd_friend W (subcommand ∷ argv) = run_friend W (friend_word subcommand) argv
