-- ===== src/Tests/Commands.antt =====
-- The command line, uploads and downloads.
use offs.Base.{
  ℕ, ◌+◌, ◌≤◌, Bool, true, false, all, Option, none, some, List, [], ◌∷◌, ◌++◌, take, Bytes, codes,
  length, ◌≡◌, ◌≢◌, ◌↔◌, refl, arith,
}
use offs.Cli.Put.{
  PutOptions, no_options, accepted, Round, read, unsent, send_chunks, Stream, commit,
}
use offs.Cli.Put.Upload.{Sent, send_chunks_completes}
use offs.Cli.Put.Command.{PutSession, put_response}
use offs.Cli.Streams.{
  get_data, get_end, other_frame, Session, starts, Run, cmd_get, stream_get, LoadFrame, progress,
  load_end, partial, cmd_load,
}
use offs.Cli.Streams.Complete.{Complete, cmd_get-Complete, Loaded, cmd_load_iff}
use offs.Cli.Main.{Command, cache, put, lift_options, main, dispatch, Lifted}
use offs.Cli.Main.Dispatch.{Ran, dispatch-Ran}

abbrev put_argv : List Bytes
put_argv =
    codes "--tuple-size"
    ∷ codes "5"
    ∷ codes "a.txt"
    ∷ codes "--recycler"
    ∷ codes "ori"
    ∷ codes "--recycle-ephemeral"
    ∷ codes "commit"
    ∷ []

abbrev put_result : PutOptions
put_result = record {
  file_path = some (codes "a.txt");
  temporary = false;
  recycler_url = some (codes "ori");
  has_tuple_size = true;
  tuple_size = 5;
  recycle_ephemeral = commit;
}

abbrev rounds : List Round
rounds = read 2 ∷ read 9 ∷ read 1 ∷ read 1 ∷ []

-- The file system has one file, and everything that is sent arrives.
abbrev put_session : PutSession
put_session = record {
  open_file = λ path. some (codes "data");
  start_sent = λ request. true;
  has_chunk = true;
  rounds = rounds;
  end_sent = true;
  response = put_response;
}

send_chunks_completes_example : Sent (send_chunks rounds 4 (codes "data")) (codes "data")
unfolding codes
send_chunks_completes_example =
    send_chunks_completes rounds 4 (codes "data") refl (omega arith) (omega arith)

-- A session in which every write is whole.
abbrev session : Session
session = record {
  encodes = true;
  sends = true;
  answer = starts;
  opens = true;
  fwrite = λ file bytes. length bytes;
  flushed = λ bytes. bytes;
  frames = get_data (some (codes "ab")) ∷ other_frame ∷ get_data (some (codes "c")) ∷ get_end ∷ [];
}

abbrev get_argv : List Bytes
get_argv = codes "ori" ∷ codes "--output" ∷ codes "out" ∷ []

cmd_get-Complete_example : Complete session.frames (codes "abc")
unfolding cmd_get codes offs.Cli.Streams.parse_output offs.Base.str_eq
cmd_get-Complete_example = cmd_get-Complete get_argv session (codes "abc") (λ bytes. refl) refl

cmd_load_iff_example :
    (cmd_load (codes "ori" ∷ []) true true (progress ∷ load_end (some partial) ∷ []) ≡ 0)
    ↔ Loaded (progress ∷ load_end (some partial) ∷ [])
unfolding codes offs.Base.str_eq
cmd_load_iff_example = cmd_load_iff (codes "ori") (progress ∷ load_end (some partial) ∷ []) refl

abbrev up : Bytes → Bool
up socket = true

dispatch-Ran_example :
    Ran up (codes "/s") (codes "put") (codes "f" ∷ []) put (codes "f" ∷ []) (some (codes "/s"))
unfolding dispatch codes offs.Base.str_eq offs.Cli.Main.needs_client offs.Cli.Main.find_command
dispatch-Ran_example =
    dispatch-Ran up (codes "/s") (codes "put") (codes "f" ∷ []) (codes "f" ∷ []) put
      (some (codes "/s")) refl
