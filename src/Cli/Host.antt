-- ===== src/Cli/Host.antt =====
-- The machine that the client runs on: processes, directories and the staged configuration. Each
-- call leaves an event with its result, and what the machine answers may depend on all events
-- before. Printed text is left out.
use offs.Base.{ℕ, Bool, Option, List, ◌∷◌, Bytes}

-- FILE_VERIFY_SHA256 and FILE_VERIFY_NONE
pub data Verify : Type 0 where
  sha256 unverified : Verify

pub data Event : Type 0 where
  -- `pgrep -x offsd`: whether the daemon runs
  asked_running : Bool → Event
  -- `pkill -TERM -x offsd`
  signalled : Bool → Event
  slept : Event
  -- fork and exec of offsd with these arguments: whether the child is alive or exited with 0
  spawned : List Bytes → Bool → Event
  -- a connection to the socket, closed again
  probed : Bytes → Bool → Event
  -- mkdir_p
  created_dir : Bytes → Bool → Event
  -- config_pending_save of one field: the directory, the field, the value (none for null)
  staged : Bytes → Bytes → Option Bytes → Bool → Event
  -- config_pending_save of a number
  staged_number : Bytes → Bytes → ℕ → Bool → Event
  -- cli_cache_move_tree
  moved : Bytes → Bytes → Verify → Bool → Event
  -- rm_rf
  removed : Bytes → Bool → Event

-- The newest event first.
abbrev pub Trace : Type 0
Trace = List Event

-- stat of a path
pub data FileKind : Type 0 where
  missing directory other : FileKind

-- The results 1, 0 and -1 of `dir_is_empty`.
pub data Contents : Type 0 where
  empty nonempty unreadable : Contents

pub record Host : Type 0 where
  pub running : Trace → Bool
  pub signal : Trace → Bool
  pub spawn : Trace → List Bytes → Bool
  pub probe : Trace → Bytes → Bool
  pub kind : Trace → Bytes → FileKind
  pub contents : Trace → Bytes → Contents
  pub mkdir : Trace → Bytes → Bool
  pub stage : Trace → Bytes → Bytes → Option Bytes → Bool
  pub stage_number : Trace → Bytes → Bytes → ℕ → Bool
  pub move : Trace → Bytes → Bytes → Verify → Bool
  pub remove : Trace → Bytes → Bool
  pub cwd : Option Bytes

-- A computation that extends the trace.
abbrev pub M : Type 0 → Type 0
M A = Trace → A × Trace

-- One computation and then another, which is told the result or not.
infixl 5 ◌>>=◌ ◌>>◌
abbrev pub ◌>>=◌ : {First Second : Type 0} → M First → (First → M Second) → M Second
◌>>=◌ run_first next trace = let (result, longer) = run_first trace in next result longer

abbrev pub ◌>>◌ : {First Second : Type 0} → M First → M Second → M Second
◌>>◌ run_first next trace = let (result, longer) = run_first trace in next longer

abbrev pub return : {A : Type 0} → A → M A
return a t = (a, t)

-- A call whose result is a flag.
abbrev pub ask : (Trace → Bool) → (Bool → Event) → M Bool
ask answer event t = let ok = answer t in (ok, event ok ∷ t)

-- A question that changes nothing.
abbrev pub look : {A : Type 0} → (Trace → A) → M A
look answer t = (answer t, t)
