-- ===== src/Cli/Streams.antt =====
-- The streams that `offs get` and `offs load` read (src/offs/commands/get.c, load.c): the frames
-- of the daemon one by one, up to an end, an error, or a connection that gives no more.
pub mod Complete
use offs.Base.{
  ℕ, Bool, true, false, not, ◌||◌, Option, none, some, List, [], ◌∷◌, ◌++◌, ltb, if◌then◌else◌,
  length, take, any, Bytes, codes, str_eq,
}

-- A frame of `get` as the loop tells them apart; a GET_DATA frame has its data, or cannot be
-- decoded.
pub data GetFrame : Type 0 where
  get_data : Option Bytes → GetFrame
  get_end error_frame other_frame : GetFrame

-- What fwrite has taken for the output file, and the three flags of the loop.
pub record Output : Type 0 where
  pub file : Bytes
  pub saw_end : Bool
  pub had_error : Bool
  pub short_write : Bool

abbrev pub opened : Bytes → Output
opened file = record { file = file; saw_end = false; had_error = false; short_write = false }

-- The arguments of `get`: the usage is an error or the help; else the ORI and the output path.
pub data GetArgs : Type 0 where
  get_usage get_help : GetArgs
  get_from : Bytes → Option Bytes → GetArgs

unfoldable pub parse_output : Bytes → List Bytes → Option Bytes → GetArgs
parse_output ori [] output = get_from ori output
parse_output ori (arg ∷ []) output =
    if str_eq arg (codes "--help") then get_help else get_from ori output
parse_output ori (arg ∷ value ∷ argv) output =
    let skip = parse_output ori argv (some value) in
    let next = parse_output ori (value ∷ argv) output in
    if str_eq arg (codes "--output")
    then skip
    else if str_eq arg (codes "--help")
    then get_help
    else next

unfoldable pub parse_get : List Bytes → GetArgs
parse_get [] = get_usage
parse_get (ori ∷ argv) = parse_output ori argv none

-- The answer to a request: the first frame.
pub data Answer : Type 0 where
  no_answer starts answers_error answers_other : Answer

-- What the daemon, the encoder and the file system do in one run of `get`.
pub record Session : Type 0 where
  pub encodes : Bool
  pub sends : Bool
  pub answer : Answer
  -- Whether the output path can be opened.
  pub opens : Bool
  -- What fwrite writes of some data into a file that holds these bytes.
  pub fwrite : Bytes → Bytes → ℕ
  -- What is in the file behind fclose (or exit, for stdout) of the bytes that fwrite took: a flush
  -- may fail, and its result is not looked at.
  pub flushed : Bytes → Bytes
  -- The frames behind the first, up to the first NULL.
  pub frames : List GetFrame

-- One GET_DATA frame; one that cannot be decoded is passed over.
write_data : (Bytes → Bytes → ℕ) → Option Bytes → Output → Output
write_data fwrite none o = o
write_data fwrite (some bytes) o =
    let written = fwrite o.file bytes in
    record o {
      file = o.file ++ take written bytes;
      short_write = ltb written (length bytes) || o.short_write;
    }

unfoldable pub read_frames : (Bytes → Bytes → ℕ) → List GetFrame → Output → Output
unfolding write_data
read_frames fwrite [] o = o
read_frames fwrite (get_data d ∷ frames) o = read_frames fwrite frames (write_data fwrite d o)
read_frames fwrite (get_end ∷ frames) o = record o { saw_end = true }
read_frames fwrite (error_frame ∷ frames) o = record o { had_error = true }
read_frames fwrite (other_frame ∷ frames) o = read_frames fwrite frames o

unfoldable pub get_status : Output → ℕ
get_status o =
    if o.had_error then 1 else if not o.saw_end then 1 else if o.short_write then 1 else 0

-- The exit status of a run, and what is in the output if it was opened.
pub record Run : Type 0 where
  pub status : ℕ
  pub output : Option Bytes

abbrev pub failed : Run
failed = record { status = 1; output = none }

unfoldable pub stream_get : Session → Run
unfolding read_frames get_status
stream_get s =
    let o = read_frames s.fwrite s.frames (opened []) in
    record { status = get_status o; output = some (s.flushed o.file) }

-- Without `--output` the data goes to stdout, which is open.
has_output : Session → Option Bytes → Bool
has_output s none = true
has_output s (some path) = s.opens

answered : Session → Option Bytes → Answer → Run
unfolding has_output
answered s output starts = if has_output s output then stream_get s else failed
answered s output no_answer = failed
answered s output answers_error = failed
answered s output answers_other = failed

unfoldable pub run_get : GetArgs → Session → Run
unfolding answered stream_get has_output
run_get get_usage s = failed
run_get get_help s = record { status = 0; output = none }
run_get (get_from ori output) s =
    if not s.encodes then failed else if not s.sends then failed else answered s output s.answer

unfoldable pub cmd_get : List Bytes → Session → Run
unfolding parse_get run_get
cmd_get argv s = run_get (parse_get argv) s

-- The status of a LOAD_END frame.
pub data LoadStatus : Type 0 where
  loaded partial load_failed other_status : LoadStatus

-- A frame of `load`; a LOAD_END frame has its status, or cannot be decoded.
pub data LoadFrame : Type 0 where
  progress load_error load_other : LoadFrame
  load_end : Option LoadStatus → LoadFrame

-- The loop's flags.
pub record Loading : Type 0 where
  pub load_saw_end : Bool
  pub load_had_error : Bool
  pub end_status : LoadStatus

abbrev pub not_ended : Loading
not_ended = record { load_saw_end = false; load_had_error = false; end_status = loaded }

end_load : Option LoadStatus → Loading → Loading
end_load none l = record l { load_had_error = true }
end_load (some s) l = record l { load_saw_end = true; end_status = s }

unfoldable pub read_load : List LoadFrame → Loading → Loading
unfolding end_load
read_load [] l = l
read_load (progress ∷ frames) l = read_load frames l
read_load (load_other ∷ frames) l = read_load frames l
read_load (load_error ∷ frames) l = record l { load_had_error = true }
read_load (load_end s ∷ frames) l = end_load s l

is_failed : LoadStatus → Bool
is_failed load_failed = true
is_failed _ = false

unfoldable pub load_status : Loading → ℕ
unfolding is_failed
load_status l =
    if l.load_had_error
    then 1
    else if not l.load_saw_end
    then 1
    else if is_failed l.end_status
    then 1
    else 0

-- `encodes` and `sends` are what the encoder and the connection do.
unfoldable pub cmd_load : List Bytes → Bool → Bool → List LoadFrame → ℕ
unfolding read_load load_status
cmd_load [] encodes sends frames = 1
cmd_load (ori ∷ argv) encodes sends frames =
    if any (λ arg. str_eq arg (codes "--help")) (ori ∷ argv)
    then 0
    else if ltb 0 (length argv)
    then 1
    else if not encodes
    then 1
    else if not sends
    then 1
    else load_status (read_load frames not_ended)
