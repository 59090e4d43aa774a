-- ===== src/Cli/Put.antt =====
-- `offs put` (src/offs/commands/put.c): the flags, the file name that is stored, and the stream of
-- frames. Progress and messages are left out.
pub mod Flags
pub mod BaseName
pub mod Delivered
pub mod Upload
pub mod Command
use offs.Base.{
  is_none, ℕ, suc, ◌+◌, ◌-◌, ◌*◌, ℤ, pos, negsuc, Bool, true, false, not, ◌&&◌, ◌||◌, Option, none,
  some, List, [], ◌∷◌, ◌++◌, ltb, ◌==◌, if◌then◌else◌, length, take, drop, Bytes, codes, str_eq,
  has_prefix, Number, read_number, long_of,
}

-- recycle_ephemeral_e
pub data Recycle : Type 0 where
  no_recycling commit propagate : Recycle

pub record PutOptions : Type 0 where
  pub file_path : Option Bytes
  pub temporary : Bool
  pub recycler_url : Option Bytes
  pub has_tuple_size : Bool
  pub tuple_size : ℕ
  pub recycle_ephemeral : Recycle

abbrev pub no_options : PutOptions
no_options = record {
  file_path = none;
  temporary = false;
  recycler_url = none;
  has_tuple_size = false;
  tuple_size = 3;
  recycle_ephemeral = no_recycling;
}

-- How the arguments are read: the help, an error, or a file to send.
pub data PutArgs : Type 0 where
  shows_help rejected : PutArgs
  accepted : Bytes → PutOptions → PutArgs

pub data Word : Type 0 where
  help temporary recycler recycle_ephemeral tuple_size unknown_flag positional : Word

unfoldable pub word_of : Bytes → Word
word_of arg =
    if str_eq arg (codes "--help")
    then help
    else if str_eq arg (codes "--temporary")
    then temporary
    else if str_eq arg (codes "--recycler")
    then recycler
    else if str_eq arg (codes "--recycle-ephemeral")
    then recycle_ephemeral
    else if str_eq arg (codes "--tuple-size")
    then tuple_size
    else if has_prefix (codes "--") arg
    then unknown_flag
    else positional

unfoldable pub recycle_mode : Bytes → Option Recycle
recycle_mode value =
    if str_eq value (codes "commit")
    then some commit
    else if str_eq value (codes "propagate")
    then some propagate
    else none

abbrev is_nil : Bytes → Bool
is_nil [] = true
is_nil (c ∷ cs) = false

positive : ℤ → Option ℕ
positive (pos n) = if n == 0 then none else some n
positive (negsuc n) = none

-- `strtol(value, &endptr, 10)` and the tests behind it
unfoldable pub parse_tuple_size : Bytes → Option ℕ
unfolding positive
parse_tuple_size value =
    let n = read_number 10 value in if is_nil n.rest then positive (long_of n) else none

-- Only the first positional argument is taken.
take_path : Bytes → PutOptions → PutOptions
take_path arg o = record o { file_path = elim o.file_path [ none ↦ some arg | some p ↦ some p ] }

set_recycle : PutOptions → Option Recycle → Option PutOptions
set_recycle o none = none
set_recycle o (some mode) = some (record o { recycle_ephemeral = mode })

set_tuple_size : PutOptions → Option ℕ → Option PutOptions
set_tuple_size o none = none
set_tuple_size o (some n) = some (record o { tuple_size = n; has_tuple_size = true })

is_recycling : Recycle → Bool
is_recycling no_recycling = false
is_recycling _ = true

-- The two tests behind the loop.
unfoldable pub check_options : PutOptions → PutArgs
unfolding is_recycling
check_options o = elim o.file_path [
  | none ↦ rejected
  | some path ↦
      if is_recycling o.recycle_ephemeral && is_none o.recycler_url
      then rejected
      else accepted path o
]

-- The loop over argv. A flag that wants a value and has none is an error.
unfoldable pub parse_put : List Bytes → PutOptions → PutArgs
unfolding take_path set_recycle set_tuple_size
parse_put [] o = check_options o
parse_put (arg ∷ []) o = elim (word_of arg) [
  | help ↦ shows_help
  | temporary ↦ check_options (record o { temporary = true })
  | recycler ↦ rejected
  | recycle_ephemeral ↦ rejected
  | tuple_size ↦ rejected
  | unknown_flag ↦ rejected
  | positional ↦ check_options (take_path arg o)
]
parse_put (arg ∷ value ∷ argv) o = elim (word_of arg) [
  | help ↦ shows_help
  | temporary ↦ parse_put (value ∷ argv) (record o { temporary = true })
  | recycler ↦ parse_put argv (record o { recycler_url = some value })
  | recycle_ephemeral ↦ elim (set_recycle o (recycle_mode value)) [
    | none ↦ rejected
    | some o' ↦ parse_put argv o'
  ]
  | tuple_size ↦ elim (set_tuple_size o (parse_tuple_size value)) [
    | none ↦ rejected
    | some o' ↦ parse_put argv o'
  ]
  | unknown_flag ↦ rejected
  | positional ↦ parse_put (value ∷ argv) (take_path arg o)
]

abbrev pub is_sep : ℕ → Bool
is_sep c = c == b'/' || c == b'\\'

-- What is behind the last separator: `rest` is that of the bytes read so far.
base_name_from : Bytes → Bytes → Bytes
base_name_from whole [] = whole
base_name_from whole (c ∷ cs) = base_name_from (if is_sep c then cs else whole) cs

unfoldable pub base_name : Bytes → Bytes
unfolding base_name_from
base_name path = base_name_from path path

-- PUT_CHUNK_SIZE
abbrev pub put_chunk_size : ℕ
put_chunk_size = 1024 * 1024

-- One round of the upload: what fread and cli_client_send_frame do. A read that gives nothing has
-- an error or has reached the end of the file.
pub data Round : Type 0 where
  -- fread gives up to this many bytes (at least one), and the frame is sent
  read : ℕ → Round
  -- the same, but the frame cannot be encoded or sent
  unsent : ℕ → Round
  read_error end_of_file : Round

pub record Stream : Type 0 where
  -- The data of the PUT_DATA frames that were sent.
  pub frames : List Bytes
  pub had_error : Bool
  -- Whether the loop has ended.
  pub ended : Bool

abbrev pub stream : List Bytes → Bool → Bool → Stream
stream f e d = record { frames = f; had_error = e; ended = d }

-- What fread gives of `file`: at most a chunk, and at most `n` bytes.
abbrev pub got : ℕ → Bytes → Bytes
got n file = take n (take put_chunk_size file)

-- One frame before those of the rounds behind it; an empty read ends the loop.
send_chunk : Bytes → Stream → Stream
send_chunk [] rest = stream [] false true
send_chunk (c ∷ cs) rest = stream ((c ∷ cs) ∷ rest.frames) rest.had_error rest.ended

-- The loop: `left` is file_size - bytes_sent, and `file` what is still to be read.
unfoldable pub send_chunks : List Round → ℕ → Bytes → Stream
unfolding send_chunk
send_chunks rounds ℕ.zero file = stream [] false true
send_chunks [] (suc left) file = stream [] false false
send_chunks (read_error ∷ rounds) (suc left) file = stream [] true true
send_chunks (end_of_file ∷ rounds) (suc left) file = stream [] false true
send_chunks (unsent n ∷ rounds) (suc left) file = stream [] true true
send_chunks (read n ∷ rounds) (suc left) file =
    let chunk = got n (take (suc left) file) in
    send_chunk chunk (send_chunks rounds (suc left - length chunk) (drop (length chunk) file))
