-- ===== src/Cli/Calls.antt =====
-- The commands of the client that make one request each (src/offs/commands): what they send, and
-- what becomes of it. What is printed is left out; an encoder whose result is not looked at
-- succeeds.
pub mod Peers
pub mod Node
pub mod Blocks
pub mod Honest
pub mod Payload
pub mod Forced
use offs.Base.{
  ℕ, zero, suc, ◌*◌, Bool, true, false, not, ◌&&◌, ◌||◌, Option, none, some, List, [], ◌∷◌, Bytes,
  codes, str_eq, all, ◌==◌, if◌then◌else◌,
}
use offs.Cli.Cache.Gc.{KeepFile, ReadResult, read_gc_keep_file}

pub data RepOp : Type 0 where
  mark_permanent delete_ephemeral rep_pin rep_unpin : RepOp

-- The requests, with their fields.
pub data Request : Type 0 where
  peer_info : ℕ → Request
  peer_connect friend_add : ℕ → Bytes → Request
  friend_remove bootstrap_add bootstrap_remove : Bytes → Request
  peer_list friend_list bootstrap_list health update_status ephemeral_list : Request
  rep : RepOp → Bytes → Request
  block_put : Bytes → Bool → Request
  block_get : Bytes → Request
  block_delete : Bytes → Bool → Request

-- What becomes of a request: it cannot be encoded, there is no response, an error frame, a frame of
-- another type than the request's response, one that cannot be decoded or lacks its text, or one
-- with this status, CLIENT_API_STATUS_OK being 0; where the response has none it is not read.
pub data Reply : Type 0 where
  unencoded unanswered error_frame other_frame undecoded : Reply
  answered : ℕ → Reply

-- What a command meets. `writes` tells whether an image is opened and written in full, and
-- `encodes_text` whether base58_encode gives a text.
pub record World : Type 0 where
  pub reply : Request → Reply
  pub open_file : Bytes → KeepFile
  pub writes : Bytes → Bool
  pub encodes_text : Bool

-- The exit status, and the requests in their order.
pub record Run : Type 0 where
  pub status : ℕ
  pub requests : List Request

abbrev pub no_call : ℕ → Run
no_call status = record { status = status; requests = [] }

-- One request, with the handler's exit status for what becomes of it.
unfoldable pub call : (Reply → ℕ) → World → Request → Run
call exit_code W request = record { status = exit_code (W.reply request); requests = request ∷ [] }

-- QR_FILE_MAX_BYTES
abbrev pub qr_file_max_bytes : ℕ
qr_file_max_bytes = 2 * 1024 * 1024

-- `read_file_contents`, which tests a file as _read_gc_keep_file does, with this cap.
unfoldable pub read_file_contents : KeepFile → ReadResult
read_file_contents file = read_gc_keep_file qr_file_max_bytes file

-- --help anywhere
unfoldable pub asks_help : List Bytes → Bool
asks_help [] = false
asks_help (arg ∷ argv) = str_eq arg (codes "--help") || asks_help argv
