-- ===== src/Cli/Put/Command/Success.antt =====
-- What an upload that reports success has sent (src/offs/commands/put.c).
use mathlib.Core.List.{flatten}
use offs.Base.{true, false, any, some, List, [], Bytes, ◌≡◌, ◌≢◌}
use offs.Cli.Put.{PutOptions, base_name}
use offs.Cli.Put.Flags.{IsAccepted}
use offs.Cli.Put.Delivered.{Delivers, finds_end}
use offs.Cli.Put.Command.{PutRequest, put_response, PutSession, PutRun, request_of}

-- A run that sent a request: for a file that could be opened and is not empty, with the options
-- that were accepted, under a name that is not empty.
pub record Uploaded (s : PutSession) (r : PutRequest) (upload : List Bytes) : Type 0 where
  pub path : Bytes
  pub options : PutOptions
  pub file : Bytes
  pub is_accepted : IsAccepted path options
  pub opened : s.open_file path ≡ some file
  pub request_is : r ≡ request_of path file options
  pub name_ne_nil : base_name path ≢ []
  pub file_ne_nil : file ≢ []
  pub delivered : Delivers s.rounds file upload
  pub whole : any finds_end s.rounds ≡ false → flatten upload ≡ file
  pub confirmed : s.response ≡ put_response
  pub ended : s.end_sent ≡ true

-- The end of a run that reports success.
record Finished (s : PutSession) (q : PutRequest) (file : Bytes) (run : PutRun) : Type 0 where
  request_is : run.request ≡ some q
  delivered : Delivers s.rounds file run.upload
  confirmed : s.response ≡ put_response
  ended : s.end_sent ≡ true
