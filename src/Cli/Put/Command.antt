-- ===== src/Cli/Put/Command.antt =====
-- `cmd_put` as a whole (src/offs/commands/put.c): from the arguments to the exit status.
pub mod Success
use offs.Base.{
  ℕ, zero, suc, Bool, true, false, not, Option, none, some, List, [], ◌∷◌, if◌then◌else◌, length,
  Bytes,
}
use offs.Cli.Put.{
  Recycle, PutOptions, no_options, PutArgs, shows_help, rejected, accepted, parse_put, base_name,
  Round, Stream, send_chunks,
}

-- client_api_put_request_t, less the content type and the fields that are empty
pub record PutRequest : Type 0 where
  pub file_name : Bytes
  pub stream_length : ℕ
  pub request_temporary : Bool
  pub request_has_tuple_size : Bool
  pub request_tuple_size : ℕ
  pub request_recycle : Recycle
  pub recycler_urls : List Bytes

-- The frame behind the upload.
pub data PutResponse : Type 0 where
  no_response put_response undecoded_response error_response unexpected : PutResponse

-- What the file system, the encoders and the connection do in one run.
pub record PutSession : Type 0 where
  -- The bytes of a file, if it can be opened and measured.
  pub open_file : Bytes → Option Bytes
  pub start_sent : PutRequest → Bool
  pub has_chunk : Bool
  pub rounds : List Round
  pub end_sent : Bool
  pub response : PutResponse

-- The exit status, the request that was sent, and the upload. A run whose rounds are used up has
-- none yet.
pub record PutRun : Type 0 where
  pub status : Option ℕ
  pub request : Option PutRequest
  pub upload : List Bytes

abbrev pub stops : ℕ → PutRun
stops status = record { status = some status; request = none; upload = [] }

recyclers : Option Bytes → List Bytes
recyclers none = []
recyclers (some url) = url ∷ []

unfoldable pub request_of : Bytes → Bytes → PutOptions → PutRequest
unfolding recyclers
request_of path file o = record {
  file_name = base_name path;
  stream_length = length file;
  request_temporary = o.temporary;
  request_has_tuple_size = o.has_tuple_size;
  request_tuple_size = o.tuple_size;
  request_recycle = o.recycle_ephemeral;
  recycler_urls = recyclers o.recycler_url;
}

abbrev pub response_status : PutResponse → ℕ
response_status put_response = 0
response_status no_response = 1
response_status undecoded_response = 1
response_status error_response = 1
response_status unexpected = 1

-- From the test of had_error on.
finish_put : PutSession → PutRequest → Stream → PutRun
finish_put s r u = record {
  status =
      if not u.ended
      then none
      else if u.had_error
      then some 1
      else if not s.end_sent
      then some 1
      else some (response_status s.response);
  request = some r;
  upload = u.frames;
}

-- From the encoding of the start frame on.
unfoldable pub upload_file : PutSession → PutRequest → Bytes → PutRun
unfolding finish_put
upload_file s r file =
    if not (s.start_sent r)
    then stops 1
    else if not s.has_chunk
    then record { status = some 1; request = some r; upload = [] }
    else finish_put s r (send_chunks s.rounds (length file) file)

-- From the test of the base name on.
check_name : PutSession → Bytes → Bytes → PutOptions → Bytes → PutRun
check_name s path file o [] = stops 1
check_name s path file o (d ∷ ds) = upload_file s (request_of path file o) file

-- From the file's size on.
check_file : PutSession → Bytes → PutOptions → Option Bytes → PutRun
unfolding check_name
check_file s path o none = stops 1
check_file s path o (some []) = stops 1
check_file s path o (some (c ∷ cs)) = check_name s path (c ∷ cs) o (base_name path)

unfoldable pub run_put : PutSession → PutArgs → PutRun
unfolding check_file
run_put s shows_help = stops 0
run_put s rejected = stops 1
run_put s (accepted path o) = check_file s path o (s.open_file path)

unfoldable pub cmd_put : PutSession → List Bytes → PutRun
cmd_put s argv = run_put s (parse_put argv no_options)
