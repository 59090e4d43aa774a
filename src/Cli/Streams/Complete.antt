-- ===== src/Cli/Streams/Complete.antt =====
-- `offs get` and `offs load` succeed only if the stream is complete.
use offs.Base.{
  ℕ, ◌≤◌, true, false, Option, none, some, List, [], ◌∷◌, ◌++◌, ltb, length, take_all, Bytes, codes,
  str_eq, ◌≡◌, ◌≢◌, ◌↔◌, ◌∙◌, inl, inr, sym, ap, refl, arith, append_assoc, append-nil, Bool-cases,
}
use offs.Cli.Streams.{
  GetFrame, get_data, get_end, error_frame, other_frame, Output, opened, GetArgs, get_usage,
  get_help, get_from, Answer, no_answer, starts, answers_error, answers_other, Session, write_data,
  read_frames, get_status, Run, stream_get, answered, has_output, run_get, cmd_get, parse_get,
  LoadStatus, loaded, partial, load_failed, other_status, LoadFrame, progress, load_error,
  load_other, load_end, not_ended, end_load, read_load, load_status, cmd_load, is_failed,
}

-- Frames that reach an end before any error, with the data in them that can be decoded.
pub data Complete : List GetFrame → Bytes → Type 0 where
  finish : {rest : List GetFrame} → Complete (get_end ∷ rest) []
  chunk :
      {frames : List GetFrame} {bytes : Bytes} (d : Bytes)
      → Complete frames bytes
      → Complete (get_data (some d) ∷ frames) (d ++ bytes)
  undecoded :
      {frames : List GetFrame} {bytes : Bytes}
      → Complete frames bytes
      → Complete (get_data none ∷ frames) bytes
  passed :
      {frames : List GetFrame} {bytes : Bytes}
      → Complete frames bytes
      → Complete (other_frame ∷ frames) bytes

read_frames-short :
    (fwrite : Bytes → Bytes → ℕ) (frames : List GetFrame) (o : Output)
    → o.short_write ≡ true
    → (read_frames fwrite frames o).short_write ≡ true
unfolding read_frames write_data
read_frames-short fwrite [] o h = h
read_frames-short fwrite (get_data none ∷ frames) o h = read_frames-short fwrite frames o h
read_frames-short fwrite (get_data (some d) ∷ frames) o h =
    read_frames-short fwrite frames (write_data fwrite (some d) o) (ground arith)
read_frames-short fwrite (get_end ∷ frames) o h = h
read_frames-short fwrite (error_frame ∷ frames) o h = h
read_frames-short fwrite (other_frame ∷ frames) o h = read_frames-short fwrite frames o h

-- The data of a complete stream, behind what the file held.
pub record Wrote (before after : Bytes) (frames : List GetFrame) : Type 0 where
  pub bytes : Bytes
  pub complete : Complete frames bytes
  pub joins : after ≡ before ++ bytes

read_frames-Wrote :
    (fwrite : Bytes → Bytes → ℕ) (frames : List GetFrame) (o : Output)
    → o.saw_end ≡ false
    → get_status (read_frames fwrite frames o) ≡ 0
    → Wrote o.file (read_frames fwrite frames o).file frames
unfolding read_frames write_data get_status
read_frames-Wrote fwrite [] o h k = absurd (ground arith)
read_frames-Wrote fwrite (get_data none ∷ frames) o h k =
    let w = read_frames-Wrote fwrite frames o h k in
    record { bytes = w.bytes; complete = undecoded w.complete; joins = w.joins }
read_frames-Wrote fwrite (get_data (some d) ∷ frames) o h k =
    elim (Bool-cases (ltb (fwrite o.file d) (length d))) [
      | inl e ↦
          absurd (ground (arith, read_frames-short fwrite frames (write_data fwrite (some d) o)))
      | inr e ↦
          let w = read_frames-Wrote fwrite frames (write_data fwrite (some d) o) h k in
          record {
            bytes = d ++ w.bytes;
            complete = chunk d w.complete;
            joins =
                w.joins
                ∙ ap (λ t. (o.file ++ t) ++ w.bytes) (take_all (fwrite o.file d) d (ground arith))
                ∙ append_assoc o.file d w.bytes;
          }
    ]
read_frames-Wrote fwrite (get_end ∷ frames) o h k = record {
  bytes = [];
  complete = finish;
  joins = sym (append-nil o.file);
}
read_frames-Wrote fwrite (error_frame ∷ frames) o h k = absurd (ground arith)
read_frames-Wrote fwrite (other_frame ∷ frames) o h k =
    let w = read_frames-Wrote fwrite frames o h k in
    record { bytes = w.bytes; complete = passed w.complete; joins = w.joins }

abbrev succeeded : Bytes → Run
succeeded file = record { status = 0; output = some file }

stream_get-Complete :
    (s : Session) (file : Bytes)
    → ((bytes : Bytes) → s.flushed bytes ≡ bytes)
    → stream_get s ≡ succeeded file
    → Complete s.frames file
unfolding stream_get
stream_get-Complete s file whole h =
    let w = read_frames-Wrote s.fwrite s.frames (opened []) refl (ap (λ r. r.status) h) in
    let same : (read_frames s.fwrite s.frames (opened [])).file ≡ file =
      sym (whole _) ∙ ground arith in
    let joined : w.bytes ≡ file = sym w.joins ∙ same in rw joined at w.complete

answered-Complete :
    (s : Session) (path : Option Bytes) (a : Answer) (file : Bytes)
    → ((bytes : Bytes) → s.flushed bytes ≡ bytes)
    → answered s path a ≡ succeeded file
    → Complete s.frames file
unfolding answered
answered-Complete s path starts file whole h = elim (Bool-cases (has_output s path)) [
  | inl e ↦ stream_get-Complete s file whole (ground arith)
  | inr e ↦ absurd (ground arith)
]
answered-Complete s path no_answer file whole h = absurd (ground arith)
answered-Complete s path answers_error file whole h = absurd (ground arith)
answered-Complete s path answers_other file whole h = absurd (ground arith)

run_get-Complete :
    (a : GetArgs) (s : Session) (file : Bytes)
    → ((bytes : Bytes) → s.flushed bytes ≡ bytes)
    → run_get a s ≡ succeeded file
    → Complete s.frames file
unfolding run_get
run_get-Complete get_usage s file whole h = absurd (ground arith)
run_get-Complete get_help s file whole h = absurd (ground arith)
run_get-Complete (get_from ori path) s file whole h =
    answered-Complete s path s.answer file whole (ground arith)

-- If the flush of the output file, whose result the program does not look at, loses nothing:
-- where `offs get` exits with 0 and has written an output, its frames reach a GET_END before any
-- error frame, and the output is the data of all the GET_DATA frames up to it that can be decoded,
-- in order. A connection that drops before the end is never a success.
pub cmd_get-Complete :
    (argv : List Bytes) (s : Session) (file : Bytes)
    → ((bytes : Bytes) → s.flushed bytes ≡ bytes)
    → cmd_get argv s ≡ record { status = 0; output = some file }
    → Complete s.frames file
unfolding cmd_get
cmd_get-Complete argv s file whole h = run_get-Complete (parse_get argv) s file whole h

write_data_full :
    (fwrite : Bytes → Bytes → ℕ) (d : Bytes) (o : Output)
    → length d ≤ fwrite o.file d
    → write_data fwrite (some d) o ≡ record o { file = o.file ++ d }
unfolding write_data
write_data_full fwrite d o h =
    let whole = take_all (fwrite o.file d) d h in
    let full : ltb (fwrite o.file d) (length d) ≡ false = ground arith in rw (whole, full) refl

read_frames_full :
    (fwrite : Bytes → Bytes → ℕ) {frames : List GetFrame} {bytes : Bytes} (o : Output)
    → ((file d : Bytes) → length d ≤ fwrite file d)
    → Complete frames bytes
    → read_frames fwrite frames o ≡ record o { file = o.file ++ bytes; saw_end = true }
unfolding read_frames write_data
read_frames_full fwrite o h finish = rw (append-nil o.file) refl
read_frames_full fwrite o h (chunk {frames = frames} {bytes = bytes} d c) =
    ap (read_frames fwrite frames) (write_data_full fwrite d o (h o.file d))
    ∙ read_frames_full fwrite (record o { file = o.file ++ d }) h c
    ∙ ap (λ f. record o { file = f; saw_end = true }) (append_assoc o.file d bytes)
read_frames_full fwrite o h (undecoded c) = read_frames_full fwrite o h c
read_frames_full fwrite o h (passed c) = read_frames_full fwrite o h c

-- If fwrite writes all it is given and the frames reach a GET_END before any error frame, the
-- loop of `offs get` exits with 0 and the output is exactly the data of the frames.
pub stream_get_full :
    (s : Session) (bytes : Bytes)
    → ((file d : Bytes) → length d ≤ s.fwrite file d)
    → ((file : Bytes) → s.flushed file ≡ file)
    → Complete s.frames bytes
    → stream_get s ≡ record { status = 0; output = some bytes }
unfolding stream_get get_status
stream_get_full s bytes h whole c = rw (read_frames_full s.fwrite (opened []) h c, whole bytes) refl

-- A load's frames up to a LOAD_END with this status: no error frame before it.
pub data Ends : List LoadFrame → LoadStatus → Type 0 where
  ends : {rest : List LoadFrame} (s : LoadStatus) → Ends (load_end (some s) ∷ rest) s
  advances : {rest : List LoadFrame} {s : LoadStatus} → Ends rest s → Ends (progress ∷ rest) s
  passes : {rest : List LoadFrame} {s : LoadStatus} → Ends rest s → Ends (load_other ∷ rest) s

abbrev pub Loaded : List LoadFrame → Type 0
Loaded frames = (s : LoadStatus) × (Ends frames s × (s ≢ load_failed))

read_load-Loaded :
    (frames : List LoadFrame) → load_status (read_load frames not_ended) ≡ 0 → Loaded frames
unfolding read_load load_status end_load is_failed
read_load-Loaded [] h = absurd (ground arith)
read_load-Loaded (progress ∷ frames) h =
    let r = read_load-Loaded frames h in (r.0, (advances r.1.0, r.1.1))
read_load-Loaded (load_other ∷ frames) h =
    let r = read_load-Loaded frames h in (r.0, (passes r.1.0, r.1.1))
read_load-Loaded (load_error ∷ frames) h = absurd (ground arith)
read_load-Loaded (load_end none ∷ frames) h = absurd (ground arith)
read_load-Loaded (load_end (some s) ∷ frames) h = (s, (ends s, λ e. absurd (ground arith)))

Loaded-read_load :
    {frames : List LoadFrame} {s : LoadStatus}
    → Ends frames s
    → s ≢ load_failed
    → load_status (read_load frames not_ended) ≡ 0
unfolding read_load load_status end_load is_failed
Loaded-read_load (ends loaded) h = refl
Loaded-read_load (ends partial) h = refl
Loaded-read_load (ends load_failed) h = absurd (h refl)
Loaded-read_load (ends other_status) h = refl
Loaded-read_load (advances e) h = Loaded-read_load e h
Loaded-read_load (passes e) h = Loaded-read_load e h

-- With one argument that is not `--help`, and a request that is encoded and sent, `offs load` exits
-- with 0 exactly if its frames reach a LOAD_END that can be decoded, before any error frame, whose
-- status is not a failure.
pub cmd_load_iff :
    (ori : Bytes) (frames : List LoadFrame)
    → str_eq ori (codes "--help") ≡ false
    → (cmd_load (ori ∷ []) true true frames ≡ 0) ↔ Loaded frames
unfolding cmd_load
cmd_load_iff ori frames h = rw h (λ k. read_load-Loaded frames k, λ l. Loaded-read_load l.1.0 l.1.1)
